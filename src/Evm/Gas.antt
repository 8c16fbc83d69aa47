-- ===== src/Evm/Gas.antt =====
-- crates/nexus-evm/src/gas.rs: the gas schedule, the meter of a transaction and the fee market.
pub mod Schedule
pub mod Meter
pub mod Fees
pub mod Sstore
pub mod Netting
pub mod BaseFee
mod Tests
