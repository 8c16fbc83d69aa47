-- ===== src/Consensus/Pos/Rewards.antt =====
-- The end of an epoch in pos.rs: rewards, unbonding, and the claims; and the leader of a slot.
use nexus_chain.Base.{
  ℕ, ◌*◌, ◌/◌, ◌%◌, Option, none, some, List, [], ◌∷◌, ◌++◌, map, ok, err, if◌then◌else◌, ◌==◌, ltb,
  select, take, last?, add64, sub64, sum64, u64_mod, to_le_bytes, of_le_bytes,
}
use nexus_chain.Base.Map.{Map, lookup, modify}
use nexus_chain.Primitives.Number.{add256, mul256, div256, as_u64}
use nexus_chain.Consensus.Errors.{Address, Hash, ConsensusResult, invalid_proposal, no_delegations}
use nexus_chain.Consensus.Validator.{Validator, active_validators, active_stake}
use nexus_chain.Consensus.Validator.Sampling.{pick}
use nexus_chain.Consensus.Bft.Crypto.{as_bytes}
use nexus_chain.Consensus.Pos.State.{ProofOfStake, Delegation, RewardPool}

abbrev pub reward_scale : ℕ
reward_scale = 1000000000000000000

-- The products of two u64 fit in the u128 that they are computed in.
abbrev pub validator_reward : ℕ → ℕ → Validator → ℕ
validator_reward total_rewards total_stake v = total_rewards * v.stake / total_stake % u64_mod

abbrev pub commission_of : ℕ → Validator → ℕ
commission_of reward v = reward * v.commission / 10000 % u64_mod

abbrev pub delegator_reward : ℕ → ℕ → Validator → ℕ
delegator_reward total_rewards total_stake v =
    let reward = validator_reward total_rewards total_stake v in
    sub64 reward (commission_of reward v)

-- The writes to one pool; `none` is a panic of the 256-bit operators.
unfoldable pub credit : ℕ → ℕ → Validator → RewardPool → Option RewardPool
credit epoch reward v pool =
    let credited = record pool { total_rewards = add64 pool.total_rewards reward; epoch = epoch } in
    if ltb 0 v.stake
    then elim (div256 (mul256 reward reward_scale) v.stake) [
      | none ↦ none
      | some delta ↦ elim (add256 pool.reward_per_share delta) [
        | none ↦ none
        | some total ↦ some (record credited { reward_per_share = total })
      ]
    ]
    else some credited

-- The loop over the active validators in `distribute_rewards`.
unfoldable pub distribute : ℕ → ℕ → ℕ → List Validator → Map RewardPool → Option (Map RewardPool)
distribute total_rewards total_stake epoch [] pools = some pools
distribute total_rewards total_stake epoch (v ∷ vs) pools = elim (lookup v.address pools) [
  | none ↦ distribute total_rewards total_stake epoch vs pools
  | some pool ↦ elim (credit epoch (delegator_reward total_rewards total_stake v) v pool) [
    | none ↦ none
    | some pool' ↦
        distribute total_rewards total_stake epoch vs (modify v.address (λ _. pool') pools)
  ]
]

unfoldable pub distribute_rewards : ProofOfStake → ℕ → Option ProofOfStake
distribute_rewards p total_rewards =
    let total_stake = active_stake p.validators in
    if total_stake == 0
    then some p
    else elim (distribute total_rewards total_stake p.current_epoch (active_validators p.validators)
        p.reward_pools) [ none ↦ none | some pools ↦ some (record p { reward_pools = pools }) ]

unfoldable pub process_unbonding : ProofOfStake → ℕ → ProofOfStake
process_unbonding p epoch = record p {
  unbonding = select (λ e. ltb epoch e.completion_epoch) p.unbonding;
}

unfoldable pub end_epoch : ProofOfStake → ℕ → Option (ConsensusResult ℕ × ProofOfStake)
end_epoch p rewards =
    let new_epoch = add64 p.current_epoch 1 in
    elim (distribute_rewards (record p { current_epoch = new_epoch }) rewards) [
      | none ↦ none
      | some q ↦
          let r = process_unbonding q new_epoch in
          some (ok new_epoch, record r { validators = record (r.validators) { epoch = new_epoch } })
    ]

-- What one delegation can claim.
abbrev pub pending_reward : Map RewardPool → Delegation → ℕ
pending_reward pools d = elim (lookup d.validator pools) [
  | none ↦ 0
  | some pool ↦ as_u64 (mul256 d.shares pool.reward_per_share / reward_scale)
]

abbrev pub mark_claimed : ℕ → Map RewardPool → Delegation → Delegation
mark_claimed epoch pools d = elim (lookup d.validator pools) [
  | none ↦ d
  | some _ ↦ record d { last_claim_epoch = epoch }
]

unfoldable pub claim_rewards : ProofOfStake → Address → ConsensusResult ℕ × ProofOfStake
claim_rewards p delegator = elim (lookup delegator p.delegations) [
  | none ↦ (err (invalid_proposal no_delegations), p)
  | some ds ↦ (
    ok (sum64 (map (pending_reward p.reward_pools) ds)),
    record p {
      delegations =
          modify delegator (map (mark_claimed p.current_epoch p.reward_pools)) p.delegations;
    },
  )
]

-- The first 8 bytes of the digest, read as a little-endian number.
abbrev pub slot_random : (List ℕ → Hash) → ℕ → ℕ → Hash → ℕ
slot_random keccak256 epoch slot randomness = of_le_bytes (
    take 8
      (as_bytes (keccak256 (to_le_bytes 8 epoch ++ (to_le_bytes 8 slot ++ as_bytes randomness)))))

abbrev pub or_last : Option Address → List Validator → Option Address
or_last (some a) vs = some a
or_last none vs = elim (last? vs) [ none ↦ none | some v ↦ some v.address ]

-- `none` is a panic of `%` by zero; `keccak256` is that of the crate sha3.
abbrev pub choose : (List ℕ → Hash) → ℕ → ℕ → Hash → ℕ → List Validator → Option (Option Address)
choose keccak256 epoch slot randomness total_stake [] = some none
choose keccak256 epoch slot randomness total_stake (v ∷ vs) =
    if total_stake == 0
    then none
    else some (
        or_last
          (pick u64_mod 0 (slot_random keccak256 epoch slot randomness % total_stake) (v ∷ vs))
          (v ∷ vs))

unfoldable pub select_leader :
    (List ℕ → Hash) → ProofOfStake → ℕ → ℕ → Hash → Option (Option Address)
select_leader keccak256 p epoch slot randomness =
    choose keccak256 epoch slot randomness (active_stake p.validators)
      (active_validators p.validators)
