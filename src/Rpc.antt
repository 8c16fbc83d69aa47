-- ===== src/Rpc.antt =====
-- crates/nexus-rpc: the pending transaction pool.
pub mod Mempool
