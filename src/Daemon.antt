-- ===== src/Daemon.antt =====
-- src/daemon: the daemon that a client on the same machine talks to over a pipe.
pub mod Protocol
pub mod Pipe
pub mod Setup
pub mod Meeting
pub mod Named
pub mod Client
pub mod Answer
pub mod Background
pub mod Dispatch
pub mod Loop
pub mod Frames
pub mod Safety
pub mod Kept
pub mod Reach
pub mod Portable
mod Examples
mod ClientExamples
