-- ===== src/Consensus/Validator/Tests.antt =====
-- Small validator sets, and runs of the operations of validator.rs on them.
use nexus_chain.Base.{
  ℕ, ◌+◌, ◌<◌, ◌≡◌, refl, true, false, ◌&&◌, some, List, [], ◌∷◌, arith, ok, err, ltb,
}
use nexus_chain.Consensus.Errors.{insufficient_stake}
use nexus_chain.Consensus.Validator.{
  Validator, new_validator, is_eligible, ValidatorSet, get, add_validator, active_validators,
  active_stake, has_supermajority, has_quorum, ValidatorChange, join, leave, stake_increase,
  stake_decrease, ValidatorRegistry, apply_change, apply_changes, remove_validator, advance_epoch,
  slash,
}
use nexus_chain.Consensus.Validator.Stake.{IsConsistent}
use nexus_chain.Consensus.Validator.Epoch.{advance_epoch-IsConsistent, advance_epoch_err}
use nexus_chain.Consensus.Validator.Slashing.{slash_lem}
use nexus_chain.Consensus.Validator.Quorum.{stake_for, quorum_intersection}

abbrev member : ℕ → Validator
member a = new_validator a (a ∷ []) 10

abbrev four : ValidatorSet
four = record {
  epoch = 2;
  validators = (1, member 1) ∷ (2, member 2) ∷ (3, member 3) ∷ (4, member 4) ∷ [];
  total_stake = 40;
  min_stake = 10;
  max_validators = 100;
}

four-IsConsistent : IsConsistent four
four-IsConsistent = record {
  unique = (refl, (refl, (refl, (refl, tt))));
  total = refl;
  fits = omega arith;
}

quorum_intersection_example :
    has_quorum four (stake_for (λ v. ltb v.address 4 && ltb 1 v.address) four) ≡ true
unfolding has_supermajority active_stake active_validators
quorum_intersection_example =
    quorum_intersection four (λ v. ltb v.address 4) (λ v. ltb 1 v.address) (omega arith) refl refl

abbrev registry : List ValidatorChange → ValidatorRegistry
registry changes = record {
  current_set = four;
  pending_changes = changes;
  historical_sets = (0, four) ∷ [];
}

abbrev changes : List ValidatorChange
changes = join (member 5) ∷ leave 2 ∷ stake_increase 1 7 ∷ stake_decrease 3 4 ∷ []

advance_epoch-IsConsistent_example :
    IsConsistent
      (advance_epoch (registry (join (member 5) ∷ stake_increase 1 7 ∷ []))).1.current_set
unfolding apply_change add_validator
advance_epoch-IsConsistent_example =
    advance_epoch-IsConsistent (registry (join (member 5) ∷ stake_increase 1 7 ∷ []))
      four-IsConsistent ((refl, omega arith), (omega arith, tt))

abbrev poor : Validator
poor = new_validator 6 [] 9

advance_epoch_err_example :
    let (result, r') = advance_epoch (registry (leave 2 ∷ join poor ∷ leave 1 ∷ [])) in
    (result ≡ err (insufficient_stake 10 9))
    × (r'.current_set ≡ (apply_changes four (leave 2 ∷ join poor ∷ [])).1)
    × (r'.current_set.epoch ≡ 2)
    × (r'.pending_changes ≡ [])
unfolding apply_changes apply_change add_validator remove_validator
advance_epoch_err_example =
    advance_epoch_err (registry (leave 2 ∷ join poor ∷ leave 1 ∷ [])) (leave 2 ∷ join poor ∷ [])
      (leave 1 ∷ []) (insufficient_stake 10 9) refl refl

slash_lem_example :
    let (result, r') = slash (registry []) 3 5000 7 in
    (w : Validator) × (result ≡ ok 5)
    × (get r'.current_set 3 ≡ some w)
    × (w.stake + 5 ≡ 10)
    × (r'.current_set.total_stake + 5 ≡ 40)
    × IsConsistent r'.current_set
    × ((e : ℕ) → e < 9 → is_eligible w e ≡ false)
slash_lem_example =
    slash_lem (registry []) 3 5000 7 (member 3) four-IsConsistent refl (omega arith) (omega arith)
      (omega arith)

-- The whole queue, applied.
epoch_total : (advance_epoch (registry changes)).1.current_set.total_stake ≡ 43
unfolding advance_epoch apply_changes apply_change add_validator remove_validator
epoch_total = refl
