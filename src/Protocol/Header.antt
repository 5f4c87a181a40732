-- ===== src/Protocol/Header.antt =====
-- The header that `pack_payload` writes, read back field by field.
pub mod FirstByte
pub mod Length
