-- ===== src/Primitives.antt =====
-- crates/nexus-primitives: 256-bit numbers.
pub mod Errors
pub mod Number
pub mod U256
pub mod Merkle
pub mod Signature
pub mod Transaction
