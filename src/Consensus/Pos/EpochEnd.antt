-- ===== src/Consensus/Pos/EpochEnd.antt =====
-- The end of an epoch in pos.rs: what is paid out, what leaves the unbonding queue, and that no
-- operator panics.
pub mod Credits
mod Split
pub mod Room
use nexus_chain.Base.{
  ℕ, ◌≡◌, refl, none, some, List, [], ok, ltb, inl, inr, if◌then◌else◌, Bool-cases, ◌==◌, select,
  length, add64,
}
use nexus_chain.Base.Map.{Map}
use nexus_chain.Consensus.Validator.{Validator, active_validators, active_stake}
use nexus_chain.Consensus.Pos.State.{ProofOfStake, RewardPool, UnbondingEntry}
use nexus_chain.Consensus.Pos.Rewards.{distribute_rewards, process_unbonding, end_epoch}
use nexus_chain.Consensus.Pos.EpochEnd.Credits.{AllCredited, none-Credits, distribute-AllCredited}
use nexus_chain.Consensus.Pos.EpochEnd.Room.{HasRoom, distribute_returns}

-- The validators that an epoch rewards: without stake behind them, none.
abbrev pub rewarded_validators : ProofOfStake → List Validator
rewarded_validators p =
    if active_stake p.validators == 0 then [] else active_validators p.validators

-- The credits to the pools of `before` that the end of the epoch makes, and leaves in `pools`.
abbrev pub Pays : ProofOfStake → ℕ → ℕ → Map RewardPool → Type 0
Pays p rewards epoch pools =
    AllCredited rewards (active_stake p.validators) epoch (rewarded_validators p) p.reward_pools
      pools

distribute_rewards_returns :
    (p : ProofOfStake) (rewards : ℕ)
    → HasRoom (length (active_validators p.validators)) p.reward_pools
    → (pools : Map RewardPool) × (distribute_rewards p rewards
        ≡ some (record p { reward_pools = pools }))
      × Pays p rewards p.current_epoch pools
unfolding distribute_rewards
distribute_rewards_returns p rewards h =
    let total = active_stake p.validators in
    let active = active_validators p.validators in
    elim (Bool-cases (total == 0)) [
      | inl empty ↦ (
        p.reward_pools,
        rw empty refl,
        rw empty (record {
          credited = λ k pool at. (pool, at, none-Credits rewards total p.current_epoch k pool);
          absent = λ k no. no;
        }),
      )
      | inr staked ↦
          let (pools, e) =
            distribute_returns rewards total p.current_epoch active p.reward_pools h in
          (
            pools,
            simp (staked, e),
            rw staked (
                distribute-AllCredited rewards total p.current_epoch active p.reward_pools pools e),
          )
    ]

-- The state after an epoch that leaves the pools `pools`.
abbrev ended : ProofOfStake → Map RewardPool → ProofOfStake
ended p pools =
    let next = add64 p.current_epoch 1 in
    record p {
      current_epoch = next;
      reward_pools = pools;
      unbonding = select (λ x. ltb next x.completion_epoch) p.unbonding;
      validators = record (p.validators) { epoch = next };
    }

end_epoch_step :
    (p : ProofOfStake) (rewards : ℕ) (pools : Map RewardPool)
    → let q = record p { current_epoch = add64 p.current_epoch 1 } in
      distribute_rewards q rewards ≡ some (record q { reward_pools = pools })
      → end_epoch p rewards ≡ some (ok (add64 p.current_epoch 1), ended p pools)
unfolding end_epoch process_unbonding
end_epoch_step p rewards pools e = rw (e, end_epoch)

-- While every pool has room for the rewards per share of one epoch, `end_epoch` returns the next
-- epoch. That epoch is then the current one and the validator set's. Each active validator's pool,
-- when there is active stake, is stamped with it and credited the delegators' reward (modulo 2^64)
-- and the reward per share, no other pool changes, and none appears or goes. The unbonding queue
-- keeps its entries that complete later, in order. Delegations and configuration stay.
pub end_epoch_lem :
    (p : ProofOfStake) (rewards : ℕ)
    → HasRoom (length (active_validators p.validators)) p.reward_pools
    → let next = add64 p.current_epoch 1 in
      (q : ProofOfStake) × (end_epoch p rewards ≡ some (ok next, q))
      × (q.current_epoch ≡ next)
      × (q.validators ≡ record (p.validators) { epoch = next })
      × Pays p rewards next q.reward_pools
      × (q.unbonding ≡ select (λ e. ltb next e.completion_epoch) p.unbonding)
      × (q.delegations ≡ p.delegations)
      × (q.config ≡ p.config)
end_epoch_lem p rewards h =
    let next = add64 p.current_epoch 1 in
    let (pools, e, paid) =
      distribute_rewards_returns (record p { current_epoch = next }) rewards h in
    (ended p pools, end_epoch_step p rewards pools e, refl, refl, paid, refl, refl, refl)
