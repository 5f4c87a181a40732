-- ===== src/Tests.antt =====
-- Runs of the definitions, and the theorems at concrete inputs.
mod Frames
mod Connections
mod Sessions
mod Requests
mod Watching
mod Kernels
mod Handshakes
mod Servers
mod Limits
mod Queues
