-- ===== src/Tests.antt =====
-- The laws at concrete inputs.
mod Frames
mod Buffers
mod Plans
mod Sessions
mod Bodies
mod Graphs
mod Shapes
mod Arrays
mod Convolutions
mod Loops
mod Devices
mod Routes
mod Captures
mod Runs
mod Triangles
mod Tapes
mod Extremes
mod Letters
