-- ===== src/Consensus/Pos/EpochEnd/Credits.antt =====
-- What `distribute_rewards` of pos.rs writes to each reward pool.
use nexus_chain.Base.{
  ℕ, ◌+◌, ◌*◌, ◌/◌, ◌%◌, ◌<◌, ◌≡◌, refl, ◌∙◌, ap, true, false, none, some, List, [], ◌∷◌, map,
  arith, sum, u64_mod, ltb, any, inl, inr, Bool-cases, Option-cases, ◌==◌, if◌then◌else◌, add64,
}
use native.Mathlib.Nat.{mod-eq_of_lt}
use nexus_chain.Primitives.Number.{mul256}
use nexus_chain.Base.Map.{Map, lookup, modify, lookup-modify, lookup-modify-none}
use nexus_chain.Consensus.Validator.{Validator}
use nexus_chain.Consensus.Pos.State.{RewardPool}
use nexus_chain.Consensus.Pos.Rewards.{delegator_reward, reward_scale, credit, distribute}

-- The reward that the delegators of `v` get for each share, scaled.
abbrev pub per_share : ℕ → Validator → ℕ
per_share reward v = if ltb 0 v.stake then reward * reward_scale / v.stake else 0

-- The sum of a measure over the validators at an address.
abbrev pub sum_at : ℕ → (Validator → ℕ) → List Validator → ℕ
sum_at k w vs = sum (map (λ v. if k == v.address then w v else 0) vs)

-- How the epoch `epoch` leaves the pool of the address `k`, where the total reward is `r` and the
-- stake of all is `t`: every validator of `vs` at that address adds its delegators' reward and the
-- reward per share, and stamps the pool with the epoch.
pub record Credits (r t epoch : ℕ) (vs : List Validator) (k : ℕ) (before after : RewardPool)
    : Type 0 where
  pub stamped : after.epoch ≡ (if any (λ v. k == v.address) vs then epoch else before.epoch)
  pub rewarded :
      after.total_rewards % u64_mod
      ≡ (before.total_rewards + sum_at k (λ v. delegator_reward r t v) vs) % u64_mod
  pub shared :
      after.reward_per_share
      ≡ before.reward_per_share + sum_at k (λ v. per_share (delegator_reward r t v) v) vs

credit_lem :
    (epoch reward : ℕ) (v : Validator) (pool paid : RewardPool)
    → reward < u64_mod
    → credit epoch reward v pool ≡ some paid
    → (paid.epoch ≡ epoch)
      × (paid.total_rewards ≡ add64 pool.total_rewards reward)
      × (paid.reward_per_share ≡ pool.reward_per_share + per_share reward v)
unfolding credit
credit_lem epoch reward v pool paid small e =
    let exact : mul256 reward reward_scale ≡ reward * reward_scale = mod-eq_of_lt (omega arith) in
    ground (arith, exact)

module _ (r t epoch : ℕ) (v : Validator) (vs : List Validator) (k : ℕ) where
  credit-Credits :
      (pool paid after : RewardPool)
      → (k == v.address) ≡ true
      → credit epoch (delegator_reward r t v) v pool ≡ some paid
      → Credits r t epoch vs k paid after
      → Credits r t epoch (v ∷ vs) k pool after
  credit-Credits pool paid after same e h =
      let (stamp, total, share) =
        credit_lem epoch (delegator_reward r t v) v pool paid (omega arith) e in
      record {
        stamped = ground (arith, h.stamped);
        rewarded = rw same (omega (arith, h.rewarded, total));
        shared = rw same (omega (arith, h.shared, share));
      }

  skip-Credits :
      (pool after : RewardPool)
      → (k == v.address) ≡ false
      → Credits r t epoch vs k pool after
      → Credits r t epoch (v ∷ vs) k pool after
  skip-Credits pool after other h = record {
    stamped = ground (arith, h.stamped);
    rewarded = rw other (omega (arith, h.rewarded));
    shared = rw other (omega (arith, h.shared));
  }

-- Every pool of `before` is credited, and no other pool appears.
pub record AllCredited (r t epoch : ℕ) (vs : List Validator) (before after : Map RewardPool)
    : Type 0 where
  pub credited :
      (k : ℕ) (pool : RewardPool)
      → lookup k before ≡ some pool
      → (paid : RewardPool) × (lookup k after ≡ some paid) × Credits r t epoch vs k pool paid
  pub absent : (k : ℕ) → lookup k before ≡ none → lookup k after ≡ none

pub none-Credits : (r t epoch k : ℕ) (pool : RewardPool) → Credits r t epoch [] k pool pool
none-Credits r t epoch k pool = record {
  stamped = refl;
  rewarded = omega arith;
  shared = omega arith;
}

module _ (r t epoch : ℕ) (v : Validator) (vs : List Validator) (pools out : Map RewardPool) where
  skip-AllCredited :
      lookup v.address pools ≡ none
      → AllCredited r t epoch vs pools out
      → AllCredited r t epoch (v ∷ vs) pools out
  skip-AllCredited missing h = record {
    credited = λ k pool here.
        let other : (k == v.address) ≡ false = ground arith in
        let (paid, found, c) = h.credited k pool here in
        (paid, found, skip-Credits r t epoch v vs k pool paid other c);
    absent = h.absent;
  }

  credit-AllCredited :
      (pool paid : RewardPool)
      → lookup v.address pools ≡ some pool
      → credit epoch (delegator_reward r t v) v pool ≡ some paid
      → AllCredited r t epoch vs (modify v.address (λ _. paid) pools) out
      → AllCredited r t epoch (v ∷ vs) pools out
  credit-AllCredited pool paid here e h =
      let moved = λ (k : ℕ). lookup-modify k v.address (λ _. paid) pool pools here in
      record {
        credited = λ k x at. elim (Bool-cases (k == v.address)) [
          | inl same ↦
              let (after, found, c) = h.credited k paid (moved k ∙ rw same refl) in
              let one : x ≡ pool = ground arith in
              (
                after,
                found,
                credit-Credits r t epoch v vs k x paid after same
                    (ap (credit epoch (delegator_reward r t v) v) one ∙ e) c,
              )
          | inr other ↦
              let (after, found, c) = h.credited k x (moved k ∙ rw other at) in
              (after, found, skip-Credits r t epoch v vs k x after other c)
        ];
        absent = λ k no. h.absent k (lookup-modify-none k v.address (λ _. paid) pools no);
      }

pub distribute-AllCredited :
    (r t epoch : ℕ) (vs : List Validator) (pools out : Map RewardPool)
    → distribute r t epoch vs pools ≡ some out
    → AllCredited r t epoch vs pools out
unfolding distribute
distribute-AllCredited r t epoch [] pools out e = record {
  credited = λ k pool at. (pool, ground arith, none-Credits r t epoch k pool);
  absent = λ k no. ground arith;
}
distribute-AllCredited r t epoch (v ∷ vs) pools out e =
    elim (Option-cases (lookup v.address pools)) [
      | inl missing ↦
          skip-AllCredited r t epoch v vs pools out missing
            (distribute-AllCredited r t epoch vs pools out (ground arith))
      | inr (pool, here) ↦ elim (Option-cases (credit epoch (delegator_reward r t v) v pool)) [
        | inl panics ↦ absurd (ground arith)
        | inr (paid, ok) ↦ credit-AllCredited r t epoch v vs pools out pool paid here ok (
            distribute-AllCredited r t epoch vs (modify v.address (λ _. paid) pools) out
              (ground arith))
      ]
    ]
