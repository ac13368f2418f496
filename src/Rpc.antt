-- ===== src/Rpc.antt =====
-- The remote procedure calls between the controller's host and the policy's host: the client's
-- transport, the wire format and the server's executor.
pub mod Client
pub mod Executor
pub mod Frames
pub mod Server
pub mod Values
