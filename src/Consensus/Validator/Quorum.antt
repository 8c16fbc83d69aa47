-- ===== src/Consensus/Validator/Quorum.antt =====
-- `has_supermajority` and `has_quorum`: what two thirds of the active stake give.
use nexus_chain.Base.{
  ℕ, ◌+◌, ◌*◌, ◌≤◌, ◌<◌, ◌≡◌, Bool, true, ◌&&◌, List, [], ◌∷◌, map, arith, u64_mod, sum, select,
  ltb,
}
use nexus_chain.Base.Map.{values}
use nexus_chain.Consensus.Validator.{
  Validator, ValidatorSet, is_eligible, active_stake, has_supermajority, has_quorum,
}
use nexus_chain.Consensus.Validator.Stake.{stake_of, stakes}

-- The stake of the active validators that `p` picks, such as the voters for one vertex.
abbrev pub stake_for : (Validator → Bool) → ValidatorSet → ℕ
stake_for p s =
    sum (map stake_of (select p (select (λ v. is_eligible v s.epoch) (values s.validators))))

sum-select_le :
    (p : Validator → Bool) (xs : List Validator)
    → sum (map stake_of (select p xs)) ≤ sum (map stake_of xs)
sum-select_le p [] = omega arith
sum-select_le p (x ∷ xs) = ground (arith, sum-select_le p xs)

-- Inclusion and exclusion.
sum-select_both :
    (p q : Validator → Bool) (xs : List Validator)
    → sum (map stake_of (select p xs)) + sum (map stake_of (select q xs))
      ≤ sum (map stake_of xs) + sum (map stake_of (select (λ v. p v && q v) xs))
sum-select_both p q [] = omega arith
sum-select_both p q (x ∷ xs) = ground (arith, sum-select_both p q xs)

active_stake-le : (s : ValidatorSet) → stakes s < u64_mod → active_stake s ≤ stakes s
unfolding active_stake
active_stake-le s h =
    omega (arith, sum-select_le (λ v. is_eligible v s.epoch) (values s.validators))

active_stake-sum :
    (s : ValidatorSet)
    → stakes s < u64_mod
    → active_stake s
      ≡ sum (map stake_of (select (λ v. is_eligible v s.epoch) (values s.validators)))
unfolding active_stake
active_stake-sum s h =
    omega (arith, sum-select_le (λ v. is_eligible v s.epoch) (values s.validators))

-- The wrapping test is the exact one where three times the stakes fit in a word.
pub has_supermajority_iff :
    (s : ValidatorSet) (n : ℕ)
    → stakes s * 3 < u64_mod
    → n ≤ stakes s
    → has_supermajority s n ≡ ltb (active_stake s * 2) (n * 3)
unfolding has_supermajority
has_supermajority_iff s n room le = ground (arith, active_stake-le s)

-- Two groups of active validators that each hold a supermajority share validators with more than a
-- third of the active stake: what they share is a quorum.
pub quorum_intersection :
    (s : ValidatorSet) (p q : Validator → Bool)
    → stakes s * 3 < u64_mod
    → has_supermajority s (stake_for p s) ≡ true
    → has_supermajority s (stake_for q s) ≡ true
    → has_quorum s (stake_for (λ v. p v && q v) s) ≡ true
unfolding has_supermajority has_quorum
quorum_intersection s p q room hp hq =
    let active = select (λ v. is_eligible v s.epoch) (values s.validators) in
    ground (
      arith,
      active_stake-le s,
      active_stake-sum s,
      sum-select_le p active,
      sum-select_le q active,
      sum-select_le (λ v. p v && q v) active,
      sum-select_both p q active,
    )
