-- ===== src/Examples.antt =====
-- The example programs of the repository (examples/): a calculator, and a transport over web sockets.
pub mod Outcome
pub mod CalcSource
pub mod CalcSink
pub mod Requests
pub mod Follows
pub mod Mirror
pub mod Transport
pub mod SourceLink
pub mod SinkNode
