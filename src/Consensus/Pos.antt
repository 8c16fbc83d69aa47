-- ===== src/Consensus/Pos.antt =====
-- crates/nexus-consensus/src/pos.rs: stake, delegations, unbonding and rewards. Each method is one
-- step on the whole state; the `RwLock`s guard single calls and are left out.
pub mod State
pub mod Rewards
pub mod Stakes
pub mod Undelegate
pub mod Claims
pub mod EpochEnd
pub mod SlotLeader
mod Tests
