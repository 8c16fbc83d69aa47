-- ===== src/Consensus/Validator/Stake.antt =====
-- The running total of a validator set against the stakes of its entries.
use nexus_chain.Base.{
  ℕ, ◌+◌, ◌≤◌, ◌<◌, ◌≡◌, none, some, map, ok, arith, inl, inr, u64_mod, sum, min, add64,
  saturating_sub64, Option-cases,
}
use nexus_chain.Base.Map.{
  lookup, values, Unique, remove-Unique, insert-Unique, modify-Unique, modify, sum-remove,
  sum-modify, remove-absent, le-sum_of_lookup,
}
use nexus_chain.Consensus.Errors.{Address}
use nexus_chain.Consensus.Validator.{
  Validator, ValidatorSet, ValidatorChange, join, leave, stake_increase, stake_decrease,
  update_commission, add_validator, remove_validator, apply_change,
}

abbrev pub stake_of : Validator → ℕ
stake_of v = v.stake

-- The stakes of all entries.
abbrev pub stakes : ValidatorSet → ℕ
stakes s = sum (map stake_of (values s.validators))

pub record IsConsistent (s : ValidatorSet) : Type 0 where
  pub unique : Unique s.validators
  pub total : s.total_stake ≡ stakes s
  pub fits : stakes s < u64_mod

-- A validator with a new address, whose stake fits in the total, keeps the total exact.
pub add_validator-IsConsistent :
    (s : ValidatorSet) (v : Validator)
    → IsConsistent s
    → lookup v.address s.validators ≡ none
    → stakes s + v.stake < u64_mod
    → IsConsistent (add_validator s v).1
unfolding add_validator
add_validator-IsConsistent s v c fresh room = ground (
  arith,
  remove-absent v.address s.validators fresh,
  insert-Unique v.address v s.validators c.unique,
)

pub remove_validator-IsConsistent :
    (s : ValidatorSet) (a : Address) → IsConsistent s → IsConsistent (remove_validator s a).1
unfolding remove_validator
remove_validator-IsConsistent s a c = elim (Option-cases (lookup a s.validators)) [
  | inl absent ↦ ground arith
  | inr (v, e) ↦ ground (
    arith,
    remove-Unique a s.validators c.unique,
    sum-remove stake_of v a s.validators c.unique e,
  )
]

-- A second registration under one address replaces the entry and leaves the old stake in the
-- running total.
add_validator_again :
    (s : ValidatorSet) (v w : Validator)
    → IsConsistent s
    → lookup v.address s.validators ≡ some w
    → s.min_stake ≤ v.stake
    → stakes s + v.stake < u64_mod
    → let (r, s') = add_validator s v in (r ≡ ok tt) × (s'.total_stake ≡ stakes s' + w.stake)
unfolding add_validator
add_validator_again s v w c known enough room =
    ground (arith, sum-remove stake_of w v.address s.validators c.unique known)

-- What a change must meet to keep the total exact.
abbrev pub Admissible : ValidatorSet → ValidatorChange → Type 0
Admissible s (join v) = (lookup v.address s.validators ≡ none) × (stakes s + v.stake < u64_mod)
Admissible s (leave a) = Unit
Admissible s (stake_increase a amount) = stakes s + amount < u64_mod
Admissible s (stake_decrease a amount) =
    (v : Validator) → lookup a s.validators ≡ some v → amount ≤ v.stake
Admissible s (update_commission a commission) = Unit

module _ (s : ValidatorSet) (c : IsConsistent s) where
  -- An entry rewritten in place keeps the set consistent, with the total moved by as much.
  modify-IsConsistent :
      (a : Address) (f : Validator → Validator) (v : Validator) (t : ℕ)
      → lookup a s.validators ≡ some v
      → t + v.stake ≡ stakes s + (f v).stake
      → t < u64_mod
      → IsConsistent (record s { validators = modify a f s.validators; total_stake = t })
  modify-IsConsistent a f v t e moved room =
      ground
        (arith, modify-Unique a f s.validators c.unique, sum-modify stake_of v a f s.validators e)

  stake_increase-IsConsistent :
      (a : Address) (amount : ℕ)
      → stakes s + amount < u64_mod
      → IsConsistent (apply_change s (stake_increase a amount)).1
  unfolding apply_change
  stake_increase-IsConsistent a amount room = elim (Option-cases (lookup a s.validators)) [
    | inl absent ↦ ground arith
    | inr (v, e) ↦
        rw (e, apply_change)
          (modify-IsConsistent a (λ w. record w { stake = add64 w.stake amount }) v
            (add64 s.total_stake amount) e
            (omega (arith, le-sum_of_lookup stake_of v a s.validators e, c.total)) (omega arith))
  ]

  stake_decrease-IsConsistent :
      (a : Address) (amount : ℕ)
      → ((v : Validator) → lookup a s.validators ≡ some v → amount ≤ v.stake)
      → IsConsistent (apply_change s (stake_decrease a amount)).1
  unfolding apply_change
  stake_decrease-IsConsistent a amount covered = elim (Option-cases (lookup a s.validators)) [
    | inl absent ↦ ground arith
    | inr (v, e) ↦
        rw (e, apply_change)
          (modify-IsConsistent a (λ w. record w { stake = saturating_sub64 w.stake amount }) v
            (saturating_sub64 s.total_stake amount) e
            (omega (arith, le-sum_of_lookup stake_of v a s.validators e, c.total, covered v e))
            (omega (arith, c.total, c.fits)))
  ]

  update_commission-IsConsistent :
      (a : Address) (commission : ℕ)
      → IsConsistent (apply_change s (update_commission a commission)).1
  unfolding apply_change
  update_commission-IsConsistent a commission = elim (Option-cases (lookup a s.validators)) [
    | inl absent ↦ ground arith
    | inr (v, e) ↦
        rw (e, apply_change)
          (modify-IsConsistent a (λ w. record w { commission = min commission 10000 }) v
            s.total_stake e (omega (arith, c.total)) (omega (arith, c.total, c.fits)))
  ]

pub apply_change-IsConsistent :
    (s : ValidatorSet) (x : ValidatorChange)
    → IsConsistent s
    → Admissible s x
    → IsConsistent (apply_change s x).1
unfolding apply_change
apply_change-IsConsistent s (join v) c h = add_validator-IsConsistent s v c h.0 h.1
apply_change-IsConsistent s (leave a) c h = remove_validator-IsConsistent s a c
apply_change-IsConsistent s (stake_increase a amount) c h =
    stake_increase-IsConsistent s c a amount h
apply_change-IsConsistent s (stake_decrease a amount) c h =
    stake_decrease-IsConsistent s c a amount h
apply_change-IsConsistent s (update_commission a commission) c h =
    update_commission-IsConsistent s c a commission
