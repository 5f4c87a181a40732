-- ===== src/Http.antt =====
-- websocket_http.c: the HTTP request that opens a connection.
pub mod Words
pub mod Text
pub mod Tokens
pub mod Headers
pub mod Upgrade
pub mod Asked
pub mod Written
pub mod Trusted
pub mod Accepted
pub mod Lines
