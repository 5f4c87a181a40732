-- ===== src/Protocol.antt =====
-- websocket_protocol.c: the RFC 6455 frame format, shared by the PHP classes and the server.
pub mod Opcode
pub mod Utf8
pub mod Mask
pub mod Result
pub mod Close
pub mod Frame
pub mod Unpack
pub mod Header
pub mod RoundTrip
