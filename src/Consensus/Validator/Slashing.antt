-- ===== src/Consensus/Validator/Slashing.antt =====
-- `ValidatorRegistry::slash`, and the unguarded decrease of a stake.
use nexus_chain.Base.{
  ℕ, ◌+◌, ◌-◌, ◌*◌, ◌/◌, ◌≤◌, ◌<◌, ◌≡◌, false, some, ok, arith, u64_mod, saturating_sub64,
}
use nexus_chain.Base.Map.{modify-Unique, sum-modify, lookup-modify, le-sum_of_lookup}
use nexus_chain.Consensus.Errors.{Address}
use nexus_chain.Consensus.Validator.{
  Validator, ValidatorSet, ValidatorRegistry, is_eligible, stake_decrease, apply_change, slash,
  slash_amount, slashed, get,
}
use nexus_chain.Consensus.Validator.Stake.{IsConsistent, stake_of, stakes}

-- At most 100% of a stake whose product with the percentage fits in a word.
slash_amount_lem :
    (v : Validator) (p : ℕ)
    → p ≤ 10000
    → v.stake * p < u64_mod
    → (slash_amount v p ≤ v.stake) × (slash_amount v p ≡ v.stake * p / 10000)
slash_amount_lem v p h room =
    let le : v.stake * p ≤ v.stake * 10000 = grind arith in (omega arith, omega arith)

-- Slashing a known validator by at most 100% takes that share of its stake from it and from the
-- total, which stays exact, counts the event, and bars the validator from every epoch before the
-- end of its jail term.
pub slash_lem :
    (r : ValidatorRegistry) (a : Address) (p jail : ℕ) (v : Validator)
    → IsConsistent r.current_set
    → get r.current_set a ≡ some v
    → p ≤ 10000
    → v.stake * p < u64_mod
    → r.current_set.epoch + jail < u64_mod
    → let (result, r') = slash r a p jail in
      (w : Validator) × (result ≡ ok (v.stake * p / 10000))
      × (get r'.current_set a ≡ some w)
      × (w.stake + v.stake * p / 10000 ≡ v.stake)
      × (r'.current_set.total_stake + v.stake * p / 10000 ≡ r.current_set.total_stake)
      × IsConsistent r'.current_set
      × ((e : ℕ) → e < r.current_set.epoch + jail → is_eligible w e ≡ false)
unfolding slash
slash_lem r a p jail v c known cap room late =
    let amount = slash_amount_lem v p cap room in
    let here = lookup-modify a a (slashed p r.current_set.epoch jail) v r.current_set.validators in
    let moved =
      sum-modify stake_of v a (slashed p r.current_set.epoch jail) r.current_set.validators known in
    let part = le-sum_of_lookup stake_of v a r.current_set.validators known in
    let kept =
      modify-Unique a (slashed p r.current_set.epoch jail) r.current_set.validators c.unique in
    (
      slashed p r.current_set.epoch jail v,
      ground arith,
      ground arith,
      omega arith,
      ground arith,
      ground arith,
      λ e early. ground arith,
    )

-- A decrease above the stake of the validator takes the excess from the total all the same, so the
-- total falls below the sum of the stakes by that excess.
stake_decrease_excess :
    (s : ValidatorSet) (a : Address) (amount : ℕ) (v : Validator)
    → IsConsistent s
    → get s a ≡ some v
    → v.stake ≤ amount
    → amount ≤ s.total_stake
    → let s' = (apply_change s (stake_decrease a amount)).1 in
      s'.total_stake + (amount - v.stake) ≡ stakes s'
unfolding apply_change
stake_decrease_excess s a amount v c known over some_left = ground (
  arith,
  sum-modify stake_of v a (λ w. record w { stake = saturating_sub64 w.stake amount }) s.validators
      known,
  le-sum_of_lookup stake_of v a s.validators known,
)
