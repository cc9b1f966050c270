-- ===== src/Lib.antt =====
-- The Python worker of nx_tinygrad, priv/worker: an OS process behind an Erlang port, that reads
-- framed requests from stdin, runs compiled tensor graphs on tinygrad, and writes framed responses.
--
-- - Errors, `WorkerError` and its subclasses of errors.py, and Python's exceptions, as values.
-- - Json, the values that `json` reads and writes.
-- - Wire, the XTG1 frame, `decode_frame` and `encode_frame` of protocol.py. Wire/Integers has the
--   big-endian fields of `struct`, Wire/Layout the frame as one list of bytes.
-- - Packet, the 4-byte length prefix, `read_exact`, `read_packet` and `write_packet` of protocol.py,
--   over a stream whose `read` is a parameter. The loop of `read_exact` has as much fuel as bytes
--   are wanted: a round takes a byte at least, or ends the loop.
-- - Dict, Python's dicts with integer keys, in insertion order.
-- - Registry, `TensorRegistry` of registry.py, one function for each method.
-- - Graph, the graph IR as the executor of executable.py sees it, after validation.
-- - Plan, `_requires_eager` to `_node_defined_ids`, and `_plan_segments` of executable.py.
-- - Segments, `_eval_nodes`, `_eval_segments` and `_segment_step` of executable.py. What one node
--   computes, and tinygrad's `TinyJit`, are parameters. Segments/Step has the buffers of its step.
-- - Python, what the source does with JSON values of any kind: truth, keys, indices, iteration, and
--   the lookups that raise.
-- - Dtype, the tables of dtype.py, `wire_tensor` and `wire_numpy`; the calls of numpy and tinygrad
--   are the fields of `Library`.
-- - Executables, `ExecutableRegistry` of executable.py; Executables/Capture has `_capture` and
--   `_validate_replay`, Executables/Dedup has `_dedup`, Executables/Run has `Executable.__init__`,
--   `_graph_fn` and `run`, Executables/Constants has `_make_constant` over the JSON of a constant.
-- - Folds, `_run_reduce` and `_run_window_reduce` of executable.py, over the calls of tinygrad.
-- - Action, code that changes the worker's state and may raise.
-- - Loops, `_symbolic_while_plan` of executable.py; Loops/Starts has the starts of `_slice` of
--   operations.py. Loops/Run has `_interpret`, `_make_while_step` and `_run_while`; its fuel is the
--   number of iterations, and a loop that is out of fuel is `running`.
-- - Validate, graph.py: `validate` over the JSON values of a graph, Validate/SubGraph with
--   `_validate_subgraph` and `SUPPORTED_OPS` of operations.py. Its errors name no entity here.
-- - Ops, operations.py: Ops/Dispatch has `apply` over its operations on tensors. Ops/Elementwise has
--   the tables `_UNARY`, `_BINARY` and `_COMPARISON`, Ops/Complex the arithmetic of
--   `_apply_complex`, Ops/Triangular `_triangular_solve`, Ops/Argreduce `_argreduce`, Ops/Broadcast
--   `_broadcast`, Ops/Handlers `_reduce`, `_pad`, `_clip`, `_stack`, `_concatenate`, `_iota`, `_eye`
--   and `_window`, Ops/Conv `_dilate` and `_conv`, each over a record of the calls of tinygrad;
--   Ops/Einsum has the letters of `_einsum_dot`. The rest is its integer arithmetic: Ops/Strides the
--   linear indices, Ops/Axes the orders of the axes, Ops/Bits the counts of bits; the loop of shifts
--   has as much fuel as the width, since each round adds to the shift.
-- - Device, device.py: device strings, and `probe` over what tinygrad answers.
-- - Worker, main.py: the state of the `Handler` (with stats.py), its commands in Worker/Commands and
--   their inputs in Worker/Inputs, `handle` and the loop of `main` in Worker/Handle. The fuel of
--   that loop is its number of rounds; one more than the bytes to come is enough.
-- - Base has the lemmas and the tests that the modules share, Tests the laws at concrete inputs.
--
-- A request comes in as a packet, its payload is a frame, and its buffers live in the registry; an
-- executable plans its graph once and runs it by segments.
--
-- A `Platform` has what the worker runs on: the libraries, `compile_graph` and `Executable.run`.
--
-- Not modelled: tensors and their buffers (tinygrad and numpy), the JSON text, the Elixir client; of
-- operations.py the handlers that only pass attributes to tinygrad, `_dft` but for its order
-- of axes, `_window_scatter` but for its strides, and the branches of `_apply_complex` that move axes;
-- of executable.py `_dummy` and the clones of outputs.
pub mod Base
pub mod Errors
pub mod Json
pub mod Python
pub mod Dtype
pub mod Executables
pub mod Action
pub mod Wire
pub mod Packet
pub mod Dict
pub mod Registry
pub mod Graph
pub mod Plan
pub mod Segments
pub mod Validate
pub mod Ops
pub mod Device
pub mod Loops
pub mod Folds
pub mod Worker
pub mod Tests
