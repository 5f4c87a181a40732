-- ===== src/Server.antt =====
-- websocket_server_runtime.c: the frames that the server receives, and what it makes of them.
pub mod Answers
pub mod Frames
pub mod Messages
pub mod Reads
pub mod Timers
pub mod Reachable
pub mod Handshake
pub mod Connections
pub mod Accept
pub mod Round
pub mod Loop
