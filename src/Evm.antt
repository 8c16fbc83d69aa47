-- ===== src/Evm.antt =====
-- crates/nexus-evm: gas and state.
pub mod Gas
pub mod State
