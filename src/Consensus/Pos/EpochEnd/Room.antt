-- ===== src/Consensus/Pos/EpochEnd/Room.antt =====
-- No operator of `distribute_rewards` of pos.rs panics while the pools have room.
use nexus_chain.Base.{
  ℕ, suc, ◌+◌, ◌*◌, ◌/◌, ◌≤◌, ◌<◌, ◌^◌, ◌≡◌, refl, none, some, List, [], ◌∷◌, arith, u64_mod,
  u256_mod, ltb, inl, inr, Bool-cases, Option-cases, ◌==◌, length, All, add64,
}
use native.Mathlib.Nat.{div-le_self}
use nexus_chain.Primitives.Number.{mul256}
use nexus_chain.Base.Map.{Map, lookup, modify}
use nexus_chain.Consensus.Validator.{Validator}
use nexus_chain.Consensus.Pos.State.{RewardPool}
use nexus_chain.Consensus.Pos.Rewards.{delegator_reward, reward_scale, credit, distribute}

-- The rewards per share of every pool leave room for `n` more creditings.
abbrev pub HasRoom : ℕ → Map RewardPool → Type 0
HasRoom n pools = All (λ e. e.1.reward_per_share + n * 2 ^ 124 < u256_mod) pools

lookup-HasRoom :
    (n k : ℕ) (pool : RewardPool) (pools : Map RewardPool)
    → HasRoom n pools
    → lookup k pools ≡ some pool
    → pool.reward_per_share + n * 2 ^ 124 < u256_mod
lookup-HasRoom n k pool [] h e = cc
lookup-HasRoom n k pool (x ∷ pools) h e = ground (arith, lookup-HasRoom n k pool pools h.1)

HasRoom-pred : (n : ℕ) (pools : Map RewardPool) → HasRoom (suc n) pools → HasRoom n pools
HasRoom-pred n [] h = tt
HasRoom-pred n (x ∷ pools) h = (omega (arith, h.0), HasRoom-pred n pools h.1)

modify-HasRoom :
    (n k : ℕ) (pool : RewardPool) (pools : Map RewardPool)
    → HasRoom (suc n) pools
    → pool.reward_per_share + n * 2 ^ 124 < u256_mod
    → HasRoom n (modify k (λ _. pool) pools)
modify-HasRoom n k pool [] h e = tt
modify-HasRoom n k pool (x ∷ pools) h e = elim (Bool-cases (k == x.0)) [
  | inl same ↦ rw (same, modify) (e, HasRoom-pred n pools h.1)
  | inr other ↦ rw (other, modify) (omega (arith, h.0), modify-HasRoom n k pool pools h.1 e)
]

credit_returns :
    (epoch reward : ℕ) (v : Validator) (pool : RewardPool)
    → reward < u64_mod
    → pool.reward_per_share + 2 ^ 124 < u256_mod
    → (q : RewardPool) × (credit epoch reward v pool ≡ some q)
      × (q.reward_per_share ≤ pool.reward_per_share + 2 ^ 124)
unfolding credit
credit_returns epoch reward v pool small room =
    let paid = record pool { total_rewards = add64 pool.total_rewards reward; epoch = epoch } in
    let delta = mul256 reward reward_scale / v.stake in
    let low : delta ≤ mul256 reward reward_scale = div-le_self _ _ in
    let top : delta < 2 ^ 124 = omega arith in
    elim (Bool-cases (ltb 0 v.stake)) [
      | inl some_stake ↦ (
        record paid { reward_per_share = pool.reward_per_share + delta },
        ground arith,
        omega arith,
      )
      | inr no_stake ↦ (paid, ground arith, omega arith)
    ]

module _ (r t epoch : ℕ) (v : Validator) (vs : List Validator) (pools out : Map RewardPool) where
  distribute_skip :
      lookup v.address pools ≡ none
      → distribute r t epoch vs pools ≡ some out
      → distribute r t epoch (v ∷ vs) pools ≡ some out
  unfolding distribute
  distribute_skip absent e = ground arith

  distribute-credit :
      (pool q : RewardPool)
      → lookup v.address pools ≡ some pool
      → credit epoch (delegator_reward r t v) v pool ≡ some q
      → distribute r t epoch vs (modify v.address (λ _. q) pools) ≡ some out
      → distribute r t epoch (v ∷ vs) pools ≡ some out
  unfolding distribute
  distribute-credit pool q here credited e = ground arith

-- Rewards below a word never make `distribute` panic while the pools have room.
pub distribute_returns :
    (r t epoch : ℕ) (vs : List Validator) (pools : Map RewardPool)
    → HasRoom (length vs) pools
    → (out : Map RewardPool) × (distribute r t epoch vs pools ≡ some out)
unfolding distribute
distribute_returns r t epoch [] pools h = (pools, refl)
distribute_returns r t epoch (v ∷ vs) pools h = elim (Option-cases (lookup v.address pools)) [
  | inl absent ↦
      let (out, e) = distribute_returns r t epoch vs pools (HasRoom-pred (length vs) pools h) in
      (out, distribute_skip r t epoch v vs pools out absent e)
  | inr (pool, here) ↦
      let room = lookup-HasRoom (suc (length vs)) v.address pool pools h here in
      let (q, credited, bound) =
        credit_returns epoch (delegator_reward r t v) v pool (omega arith) (omega arith) in
      let (out, e) =
        distribute_returns r t epoch vs (modify v.address (λ _. q) pools)
          (modify-HasRoom (length vs) v.address q pools h (omega arith)) in
      (out, distribute-credit r t epoch v vs pools out pool q here credited e)
]
