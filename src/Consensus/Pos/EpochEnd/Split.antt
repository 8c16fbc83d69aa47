-- ===== src/Consensus/Pos/EpochEnd/Split.antt =====
-- How pos.rs splits an epoch's rewards between validators and their delegators.
use nexus_chain.Base.{
  ℕ, ◌+◌, ◌*◌, ◌/◌, ◌%◌, ◌≤◌, ◌<◌, ◌≡◌, List, [], ◌∷◌, map, arith, sum, u64_mod, All,
}
use native.Mathlib.Nat.{div-add-mod}
use nexus_chain.Consensus.Validator.{Validator}
use nexus_chain.Consensus.Validator.Stake.{stake_of}
use nexus_chain.Consensus.Pos.Rewards.{validator_reward, commission_of, delegator_reward}

-- What is left of a reward after the commission.
reward_split :
    (r t : ℕ) (v : Validator)
    → v.commission ≤ 10000
    → commission_of (validator_reward r t v) v + delegator_reward r t v ≡ validator_reward r t v
reward_split r t v cap =
    let reward = validator_reward r t v in
    let low : reward * v.commission ≤ reward * 10000 = grind arith in omega arith

reward_scaled : (r t : ℕ) (v : Validator) → 0 < t → validator_reward r t v * t ≤ r * v.stake
reward_scaled r t v pos =
    let share = r * v.stake / t in
    let cut : share % u64_mod ≤ share = omega arith in
    let scaled : share % u64_mod * t ≤ share * t = grind arith in
    omega (arith, div-add-mod (r * v.stake) t)

scaled_rewards :
    (r t : ℕ) (vs : List Validator)
    → 0 < t
    → sum (map (λ v. validator_reward r t v) vs) * t ≤ r * sum (map stake_of vs)
scaled_rewards r t [] pos = omega arith
scaled_rewards r t (v ∷ vs) pos = omega (arith, reward_scaled r t v pos, scaled_rewards r t vs pos)

le_of_scaled : (a r t : ℕ) → 0 < t → a * t ≤ r * t → a ≤ r
le_of_scaled a r t pos h = grind arith

splits :
    (r t : ℕ) (vs : List Validator)
    → All (λ v. v.commission ≤ 10000) vs
    → All
        (λ v.
          commission_of (validator_reward r t v) v + delegator_reward r t v
          ≡ validator_reward r t v)
        vs
splits r t [] caps = tt
splits r t (v ∷ vs) caps = (reward_split r t v caps.0, splits r t vs caps.1)

-- The epoch's rewards: each active validator's reward splits into its commission and the reward of
-- its delegators, and together the active validators are given no more than there is.
rewards_within_total :
    (r : ℕ) (vs : List Validator)
    → 0 < sum (map stake_of vs)
    → All (λ v. v.commission ≤ 10000) vs
    → let t = sum (map stake_of vs) in
      (sum (map (λ v. validator_reward r t v) vs) ≤ r)
      × All
          (λ v.
            commission_of (validator_reward r t v) v + delegator_reward r t v
            ≡ validator_reward r t v)
          vs
rewards_within_total r vs pos caps =
    let t = sum (map stake_of vs) in
    (
      le_of_scaled (sum (map (λ v. validator_reward r t v) vs)) r t pos (scaled_rewards r t vs pos),
      splits r t vs caps,
    )
