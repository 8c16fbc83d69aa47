-- ===== src/Iso.antt =====
-- crates/nexus-iso: the card messages of ISO 8583.
pub mod Iso8583
