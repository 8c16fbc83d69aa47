-- ===== src/Consensus/Errors.antt =====
-- `ConsensusError` of crates/nexus-consensus/src/lib.rs. A message that the program formats is a
-- `Reason`: one constructor for each text, with the values that it shows.
use nexus_chain.Base.{ℕ, Result}

-- An address is the number that its 20 bytes spell, and a hash that of its 32 bytes: the program
-- compares them and copies their bytes.
abbrev pub Address : Type 0
Address = ℕ

abbrev pub Hash : Type 0
Hash = ℕ

pub data Reason : Type 0 where
  view_mismatch : ℕ → ℕ → Reason
  conflicts_with_locked : Reason
  commission_exceeds_maximum : Reason
  no_delegation_found : Reason
  no_delegation_to_validator : Reason
  no_delegations : Reason
  not_enough_parents : Reason
  missing_iso_data : Reason

pub data ConsensusError : Type 0 where
  invalid_signature : ConsensusError
  unknown_validator : Address → ConsensusError
  insufficient_stake : ℕ → ℕ → ConsensusError
  invalid_proposal : Reason → ConsensusError
  duplicate_vote : ConsensusError
  invalid_vote : Reason → ConsensusError
  not_reached : ConsensusError
  slashing_condition : Reason → ConsensusError
  epoch_mismatch : ℕ → ℕ → ConsensusError
  not_leader : ConsensusError

abbrev pub ConsensusResult : Type 0 → Type 0
ConsensusResult A = Result ConsensusError A
