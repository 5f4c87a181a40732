-- ===== src/Api.antt =====
-- websocket_server.c: the PHP classes of the server.
pub mod Values
pub mod Options
pub mod Server
pub mod Responses
