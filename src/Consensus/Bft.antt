-- ===== src/Consensus/Bft.antt =====
-- crates/nexus-consensus/src/bft.rs.
pub mod Crypto
pub mod Messages
pub mod Engine
pub mod Leader
pub mod Proposals
pub mod Views
pub mod Calls
pub mod Signing
pub mod Invariant
pub mod Finality
pub mod ViewChange
pub mod Progress
pub mod Election
mod Tests
