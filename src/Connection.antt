-- ===== src/Connection.antt =====
-- websocket_connection.c: the connection object, its write queue and its PHP methods.
pub mod State
pub mod Queue
pub mod Send
pub mod Methods
pub mod Stream
pub mod Flush
pub mod Sound
pub mod Willing
pub mod Progress
pub mod Drained
pub mod Sent
pub mod Refused
pub mod Delivered
