-- ===== src/Ops.antt =====
-- priv/worker/operations.py: the integer arithmetic of the operations, on shapes, axes, indices and
-- bits. The tensor calls between them are tinygrad's.
pub mod Strides
pub mod Axes
pub mod Bits
pub mod Dispatch
pub mod Triangular
pub mod Elementwise
pub mod Complex
pub mod Argreduce
pub mod Einsum
pub mod Broadcast
pub mod Handlers
pub mod Conv
