-- ===== src/Transport.antt =====
-- The transports of inference_transport.py: a direct call, and a child process with hard deadlines.
pub mod Direct
pub mod Process
