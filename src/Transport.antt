-- ===== src/Transport.antt =====
-- The transports of compost_rpc/compost_rpc.py: what `send` and `receive` do around the calls of
-- sockets and ports, which are parameters.
pub mod Stream
pub mod Frames
pub mod SendLaws
pub mod TcpLaws
pub mod SerialLaws
pub mod FrameLaws
pub mod CanLaws
pub mod Delivery
mod Runs
