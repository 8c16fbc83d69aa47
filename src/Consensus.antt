-- ===== src/Consensus.antt =====
-- The crate crates/nexus-consensus.
pub mod Errors
pub mod Validator
pub mod Bft
pub mod Pos
