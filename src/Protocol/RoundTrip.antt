-- ===== src/Protocol/RoundTrip.antt =====
-- `websocket_protocol_unpack` after `websocket_protocol_pack_payload`.
pub mod Layout
pub mod Packed
pub mod Data
pub mod Methods
pub mod Close
