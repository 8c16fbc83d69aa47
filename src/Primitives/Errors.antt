-- ===== src/Primitives/Errors.antt =====
-- `NexusError` of crates/nexus-primitives/src/error.rs, as far as the modelled code gives it: a
-- variant with its text is one constructor.
use nexus_chain.Base.{ℕ}

pub data NexusError : Type 0 where
  -- Crypto
  invalid_public_key : NexusError
  invalid_public_key_length : NexusError
  invalid_signature_format : NexusError
  invalid_recovery_id : NexusError
  recovery_failed : NexusError
  signing_failed : NexusError
  -- Validation
  missing_signature : NexusError
  gas_limit_below_intrinsic : NexusError
  transaction_too_large : NexusError
  missing_zkp_proof : NexusError
  missing_iso_data : NexusError
  -- Consensus
  past_round : NexusError
  unknown_validator : NexusError
  invalid_vote_signature : NexusError
  epoch_mismatch : NexusError
  duplicate_voter : NexusError
  vote_target_mismatch : NexusError
  insufficient_vote_weight : NexusError
  proof_target_not_found : NexusError
  -- Dag
  genesis_already_set : NexusError
  no_parents : NexusError
  too_many_parents : ℕ → NexusError
  too_many_transactions : ℕ → NexusError
  invalid_merkle_root : NexusError
  invalid_hash : NexusError
  invalid_height : ℕ → ℕ → NexusError
  timestamp_in_future : NexusError
  timestamp_before_parent : NexusError
