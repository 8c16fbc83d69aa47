-- ===== src/Consensus/Pos/Tests.antt =====
-- A small staking state, and runs of the operations of pos.rs on it.
use nexus_chain.Base.{ℕ, ◌≤◌, ◌≡◌, refl, none, some, List, [], ◌∷◌, ◌++◌, arith, ok}
use nexus_chain.Base.Map.{lookup}
use nexus_chain.Consensus.Validator.{Validator, new_validator, get, active_validators}
use nexus_chain.Consensus.Validator.Stake.{IsConsistent}
use nexus_chain.Consensus.Pos.State.{
  ProofOfStake, new, default_config, Delegation, register_validator, delegate, undelegate,
  delegations_of,
}
use nexus_chain.Consensus.Pos.Rewards.{end_epoch}
use nexus_chain.Consensus.Pos.Stakes.{stake-IsConsistent}
use nexus_chain.Consensus.Pos.Undelegate.{undelegate-delegate}
use nexus_chain.Consensus.Pos.EpochEnd.{Pays, end_epoch_lem}

abbrev member : ℕ → ℕ → Validator
member a stake = new_validator a (a ∷ []) stake

abbrev delegation_of : ℕ → ℕ → ℕ → Delegation
delegation_of v amount shares = record {
  delegator = 9;
  validator = v;
  amount = amount;
  shares = shares;
  last_claim_epoch = 0;
}

abbrev staking : ProofOfStake
staking = record (new default_config) {
  validators = record {
    epoch = 3;
    validators = (1, member 1 20000000000) ∷ (2, member 2 30000000000) ∷ [];
    total_stake = 50000000000;
    min_stake = 10000000000;
    max_validators = 100;
  };
  current_epoch = 3;
  delegations = (9, delegation_of 2 4000000 4000000000000 ∷ delegation_of 2 5000000 7 ∷ []) ∷ [];
  unbonding = record { delegator = 9; validator = 2; amount = 5; completion_epoch = 4 } ∷ [];
  reward_pools = (1, record { total_rewards = 0; reward_per_share = 0; epoch = 0 }) ∷ [];
}

abbrev listed : List Validator
listed = member 1 20000000000 ∷ member 2 30000000000 ∷ []

staking-IsConsistent : IsConsistent staking.validators
staking-IsConsistent = record { unique = (refl, (refl, tt)); total = refl; fits = omega arith }

decrease_fits :
    (w : Validator) → lookup 2 staking.validators.validators ≡ some w → 4000000 ≤ w.stake
decrease_fits w e = ground arith

stake-IsConsistent_example :
    (lookup 7 staking.validators.validators ≡ none
      → IsConsistent (register_validator staking 7 [] 4000000 500).1.validators)
    × IsConsistent (delegate staking 7 2 4000000).1.validators
    × (((w : Validator) → lookup 2 staking.validators.validators ≡ some w → 4000000 ≤ w.stake)
        → IsConsistent (undelegate staking 7 2 4000000).1.validators)
stake-IsConsistent_example =
    stake-IsConsistent staking 7 2 [] 4000000 500 staking-IsConsistent (omega arith)

undelegate-delegate_example :
    let p' = (undelegate (delegate staking 8 1 2000000).1 8 1 2000000).1 in
    ((undelegate (delegate staking 8 1 2000000).1 8 1 2000000).0 ≡ ok tt)
    × (delegations_of 8 p'.delegations ≡ [])
    × (get p'.validators 1 ≡ some (member 1 20000000000))
    × (p'.validators.total_stake ≡ 50000000000)
    × (p'.unbonding
        ≡ staking.unbonding
          ++ record { delegator = 8; validator = 1; amount = 2000000; completion_epoch = 17 } ∷ [])
undelegate-delegate_example =
    undelegate-delegate staking 8 1 2000000 (member 1 20000000000) staking-IsConsistent
      (omega arith) refl refl (omega arith)

end_epoch_lem_example :
    (q : ProofOfStake) × (end_epoch staking 1000 ≡ some (ok 4, q))
    × (q.current_epoch ≡ 4)
    × (q.validators ≡ record (staking.validators) { epoch = 4 })
    × Pays staking 1000 4 q.reward_pools
    × (q.unbonding ≡ [])
    × (q.delegations ≡ staking.delegations)
    × (q.config ≡ default_config)
unfolding active_validators
end_epoch_lem_example = end_epoch_lem staking 1000 (omega arith, tt)
