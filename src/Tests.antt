-- ===== src/Tests.antt =====
-- Concrete runs: a host, a file table and the theorems at these.
pub mod Demo
mod Descriptors
mod Files
mod Calls
mod Codes
pub mod Polls
mod Directories
mod Sockets
mod OpenFiles
mod Resolving
mod Lifecycles
