-- ===== src/Consensus/Validator/Epoch.antt =====
-- `ValidatorRegistry::advance_epoch`: the queue of changes at the end of an epoch.
use nexus_chain.Base.{
  ℕ, ◌≡◌, refl, ap, some, List, [], ◌∷◌, ◌++◌, ok, err, arith, add64, if◌then◌else◌, ◌==◌,
}
use nexus_chain.Base.Map.{lookup-insert}
use nexus_chain.Consensus.Errors.{ConsensusError}
use nexus_chain.Consensus.Validator.{
  ValidatorSet, ValidatorChange, join, leave, stake_increase, stake_decrease, update_commission,
  ValidatorRegistry, add_validator, remove_validator, apply_change, apply_changes, advance_epoch,
  get_historical_set,
}
use nexus_chain.Consensus.Validator.Stake.{IsConsistent, Admissible, apply_change-IsConsistent}

-- Every change of a queue is admissible when its turn comes.
abbrev pub AllAdmissible : ValidatorSet → List ValidatorChange → Type 0
AllAdmissible s [] = Unit
AllAdmissible s (c ∷ cs) = Admissible s c × AllAdmissible (apply_change s c).1 cs

apply_changes-IsConsistent :
    (s : ValidatorSet) (cs : List ValidatorChange)
    → IsConsistent s
    → AllAdmissible s cs
    → IsConsistent (apply_changes s cs).1
unfolding apply_changes
apply_changes-IsConsistent s [] c h = c
apply_changes-IsConsistent s (x ∷ cs) c h = ground (
  arith,
  apply_change-IsConsistent s x c h.0,
  apply_changes-IsConsistent (apply_change s x).1 cs (apply_change-IsConsistent s x c h.0) h.1,
)

-- With admissible changes, the set after `advance_epoch` has an exact total, on success and on
-- error alike.
pub advance_epoch-IsConsistent :
    (r : ValidatorRegistry)
    → IsConsistent r.current_set
    → AllAdmissible r.current_set r.pending_changes
    → IsConsistent (advance_epoch r).1.current_set
unfolding advance_epoch
advance_epoch-IsConsistent r c h =
    ground (arith, apply_changes-IsConsistent r.current_set r.pending_changes c h)

apply_changes-append_err :
    (s : ValidatorSet) (cs ds : List ValidatorChange) (e : ConsensusError)
    → (apply_changes s cs).0 ≡ err e
    → apply_changes s (cs ++ ds) ≡ apply_changes s cs
unfolding apply_changes
apply_changes-append_err s [] ds e h = cc
apply_changes-append_err s (c ∷ cs) ds e h =
    ground (arith, apply_changes-append_err (apply_change s c).1 cs ds e)

-- The epoch is not advanced by any change.
epoch-apply_change : (s : ValidatorSet) (c : ValidatorChange) → (apply_change s c).1.epoch ≡ s.epoch
unfolding apply_change add_validator remove_validator
epoch-apply_change s (join v) = ground arith
epoch-apply_change s (leave a) = ground arith
epoch-apply_change s (stake_increase a x) = ground arith
epoch-apply_change s (stake_decrease a x) = ground arith
epoch-apply_change s (update_commission a x) = ground arith

epoch-apply_changes :
    (s : ValidatorSet) (cs : List ValidatorChange) → (apply_changes s cs).1.epoch ≡ s.epoch
unfolding apply_changes
epoch-apply_changes s [] = refl
epoch-apply_changes s (c ∷ cs) =
    ground (arith, epoch-apply_changes (apply_change s c).1 cs, epoch-apply_change s c)

-- A queue in which a change fails: the error is returned and the epoch stays, but the whole queue
-- is gone, and what follows the failing change has no effect at all.
pub advance_epoch_err :
    (r : ValidatorRegistry) (cs ds : List ValidatorChange) (e : ConsensusError)
    → r.pending_changes ≡ cs ++ ds
    → (apply_changes r.current_set cs).0 ≡ err e
    → let (result, r') = advance_epoch r in
      (result ≡ err e)
      × (r'.current_set ≡ (apply_changes r.current_set cs).1)
      × (r'.current_set.epoch ≡ r.current_set.epoch)
      × (r'.pending_changes ≡ [])
unfolding advance_epoch
advance_epoch_err r cs ds e q h = ground (
  arith,
  ap (apply_changes r.current_set) q,
  apply_changes-append_err r.current_set cs ds e h,
  epoch-apply_changes r.current_set cs,
)

-- On success the epoch goes up by one and the queue is empty; on success and on error the set from
-- before is kept under its epoch, and the sets of other epochs are as they were.
advance_epoch_history :
    (r : ValidatorRegistry) (e : ℕ)
    → let (result, r') = advance_epoch r in
      (get_historical_set r' e
        ≡ (if e == r.current_set.epoch then some r.current_set else get_historical_set r e))
      × (r'.pending_changes ≡ [])
      × ((n : ℕ) → result ≡ ok n → (n ≡ add64 r.current_set.epoch 1) × (r'.current_set.epoch ≡ n))
unfolding advance_epoch
advance_epoch_history r e = (
  lookup-insert e r.current_set.epoch r.current_set r.historical_sets,
  refl,
  λ n h. ground (arith, epoch-apply_changes r.current_set r.pending_changes),
)
