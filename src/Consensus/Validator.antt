-- ===== src/Consensus/Validator.antt =====
-- crates/nexus-consensus/src/validator.rs: validators, the set of an epoch, and the registry that
-- applies the queued changes at the end of an epoch. A method takes `self` first and returns it
-- beside its result. The `RwLock`s of the registry guard single calls and are left out.
pub mod Stake
pub mod Epoch
pub mod Slashing
pub mod Quorum
pub mod Sampling
mod Tests
use nexus_chain.Base.{
  ℕ, ◌+◌, ◌/◌, ◌%◌, ◌^◌, min, Bool, true, ◌&&◌, Option, none, some, List, [], ◌∷◌, ◌++◌, map, ok,
  err, ltb, leb, if◌then◌else◌, select, add64, sub64, mul64, saturating_sub64, sum64,
}
use nexus_chain.Base.Map.{Map, lookup, insert, remove, modify, values}
use nexus_chain.Consensus.Errors.{Address, ConsensusResult, insufficient_stake, unknown_validator}

pub record Validator : Type 0 where
  pub address : Address
  pub pubkey : List ℕ
  pub stake : ℕ
  pub commission : ℕ
  pub active : Bool
  pub jailed_until : ℕ
  pub slash_count : ℕ
  pub uptime : ℕ
  pub last_active_epoch : ℕ

abbrev pub new_validator : Address → List ℕ → ℕ → Validator
new_validator address pubkey stake = record {
  address = address;
  pubkey = pubkey;
  stake = stake;
  commission = 500;
  active = true;
  jailed_until = 0;
  slash_count = 0;
  uptime = 10000;
  last_active_epoch = 0;
}

abbrev pub is_eligible : Validator → ℕ → Bool
is_eligible v current_epoch = v.active && leb v.jailed_until current_epoch && ltb 0 v.stake

pub record ValidatorSet : Type 0 where
  pub epoch : ℕ
  pub validators : Map Validator
  pub total_stake : ℕ
  pub min_stake : ℕ
  pub max_validators : ℕ

abbrev pub new_set : ℕ → ValidatorSet
new_set epoch = record {
  epoch = epoch;
  validators = [];
  total_stake = 0;
  min_stake = 10000000000;
  max_validators = 100;
}

unfoldable pub add_validator : ValidatorSet → Validator → ConsensusResult Unit × ValidatorSet
add_validator s v =
    if ltb v.stake s.min_stake then (err (insufficient_stake s.min_stake v.stake), s) else (
      ok tt,
      record s {
        total_stake = add64 s.total_stake v.stake;
        validators = insert v.address v s.validators;
      },
    )

unfoldable pub remove_validator : ValidatorSet → Address → Option Validator × ValidatorSet
remove_validator s address = elim (lookup address s.validators) [
  | some v ↦ (
    some v,
    record s {
      validators = remove address s.validators;
      total_stake = sub64 s.total_stake v.stake;
    },
  )
  | none ↦ (none, s)
]

abbrev pub get : ValidatorSet → Address → Option Validator
get s address = lookup address s.validators

unfoldable pub active_validators : ValidatorSet → List Validator
active_validators s = select (λ v. is_eligible v s.epoch) (values s.validators)

unfoldable pub active_stake : ValidatorSet → ℕ
unfolding active_validators
active_stake s = sum64 (map (λ v. v.stake) (active_validators s))

unfoldable pub has_supermajority : ValidatorSet → ℕ → Bool
has_supermajority s stake = ltb (mul64 (active_stake s) 2) (mul64 stake 3)

unfoldable pub has_quorum : ValidatorSet → ℕ → Bool
has_quorum s stake = ltb (active_stake s) (mul64 stake 3)

pub data ValidatorChange : Type 0 where
  join : Validator → ValidatorChange
  leave : Address → ValidatorChange
  stake_increase : Address → ℕ → ValidatorChange
  stake_decrease : Address → ℕ → ValidatorChange
  update_commission : Address → ℕ → ValidatorChange

pub record ValidatorRegistry : Type 0 where
  pub current_set : ValidatorSet
  pub pending_changes : List ValidatorChange
  pub historical_sets : Map ValidatorSet

abbrev pub new_registry : ValidatorRegistry
new_registry = record { current_set = new_set 0; pending_changes = []; historical_sets = [] }

unfoldable pub queue_change : ValidatorRegistry → ValidatorChange → ValidatorRegistry
queue_change r change = record r { pending_changes = r.pending_changes ++ change ∷ [] }

-- The body of the loop in `advance_epoch`.
unfoldable pub apply_change : ValidatorSet → ValidatorChange → ConsensusResult Unit × ValidatorSet
apply_change s (join v) = add_validator s v
apply_change s (leave address) = (ok tt, (remove_validator s address).1)
apply_change s (stake_increase address amount) = elim (lookup address s.validators) [
  | some _ ↦ (
    ok tt,
    record s {
      validators = modify address (λ v. record v { stake = add64 v.stake amount }) s.validators;
      total_stake = add64 s.total_stake amount;
    },
  )
  | none ↦ (ok tt, s)
]
apply_change s (stake_decrease address amount) = elim (lookup address s.validators) [
  | some _ ↦ (
    ok tt,
    record s {
      validators =
          modify address (λ v. record v { stake = saturating_sub64 v.stake amount }) s.validators;
      total_stake = saturating_sub64 s.total_stake amount;
    },
  )
  | none ↦ (ok tt, s)
]
apply_change s (update_commission address commission) = elim (lookup address s.validators) [
  | some _ ↦ (
    ok tt,
    record s {
      validators =
          modify address (λ v. record v { commission = min commission 10000 }) s.validators;
    },
  )
  | none ↦ (ok tt, s)
]

-- The loop in `advance_epoch`: `?` leaves it at the first error, and what was applied stays.
unfoldable pub apply_changes :
    ValidatorSet → List ValidatorChange → ConsensusResult Unit × ValidatorSet
apply_changes s [] = (ok tt, s)
apply_changes s (c ∷ cs) =
    let (r, s') = apply_change s c in elim r [ ok _ ↦ apply_changes s' cs | err e ↦ (err e, s') ]

-- What `advance_epoch` does after the loop.
abbrev pub next_epoch : ConsensusResult Unit × ValidatorSet → ConsensusResult ℕ × ValidatorSet
next_epoch (ok _, s) = (ok (add64 s.epoch 1), record s { epoch = add64 s.epoch 1 })
next_epoch (err e, s) = (err e, s)

unfoldable pub advance_epoch : ValidatorRegistry → ConsensusResult ℕ × ValidatorRegistry
advance_epoch r =
    let (result, s) = next_epoch (apply_changes r.current_set r.pending_changes) in
    (
      result,
      record {
        current_set = s;
        pending_changes = [];
        historical_sets = insert r.current_set.epoch r.current_set r.historical_sets;
      },
    )

abbrev pub slash_amount : Validator → ℕ → ℕ
slash_amount v percentage = mul64 v.stake percentage / 10000

-- The writes of `slash` to the validator.
abbrev pub slashed : ℕ → ℕ → ℕ → Validator → Validator
slashed percentage epoch jail_epochs v = record v {
  stake = sub64 v.stake (slash_amount v percentage);
  slash_count = (v.slash_count + 1) % 2 ^ 32;
  jailed_until = add64 epoch jail_epochs;
}

unfoldable pub slash : ValidatorRegistry → Address → ℕ → ℕ → ConsensusResult ℕ × ValidatorRegistry
slash r address percentage jail_epochs = elim (lookup address r.current_set.validators) [
  | none ↦ (err (unknown_validator address), r)
  | some v ↦ (
    ok (slash_amount v percentage),
    record r {
      current_set = record (r.current_set) {
        validators =
            modify address (slashed percentage r.current_set.epoch jail_epochs)
              r.current_set.validators;
        total_stake = sub64 r.current_set.total_stake (slash_amount v percentage);
      };
    },
  )
]

abbrev pub get_historical_set : ValidatorRegistry → ℕ → Option ValidatorSet
get_historical_set r epoch = lookup epoch r.historical_sets
