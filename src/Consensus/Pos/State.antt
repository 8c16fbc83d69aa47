-- ===== src/Consensus/Pos/State.antt =====
-- The state of `ProofOfStake`, registration, delegation and unbonding.
use nexus_chain.Base.{
  ℕ, ◌*◌, ◌/◌, ◌%◌, not, ◌||◌, Option, none, some, List, [], ◌∷◌, ◌++◌, map, ok, err, if◌then◌else◌,
  ◌==◌, ltb, select, add64, sub64, saturating_sub64, saturating_mul64, sum64, u64_mod,
}
use nexus_chain.Base.Map.{Map, lookup, insert, modify, values}
use nexus_chain.Consensus.Errors.{
  Address, ConsensusResult, insufficient_stake, invalid_proposal, unknown_validator,
  commission_exceeds_maximum, no_delegation_found, no_delegation_to_validator,
}
use nexus_chain.Consensus.Validator.{new_validator, ValidatorSet, new_set, add_validator}
use mathlib.Core.List.{flatten}

pub record StakingConfig : Type 0 where
  pub min_validator_stake : ℕ
  pub min_delegation : ℕ
  pub unbonding_period : ℕ
  pub max_commission : ℕ
  pub max_commission_change : ℕ
  pub slots_per_epoch : ℕ
  pub epoch_duration : ℕ
  pub double_sign_slash : ℕ
  pub downtime_slash : ℕ
  pub jail_duration : ℕ

abbrev pub default_config : StakingConfig
default_config = record {
  min_validator_stake = 10000000000;
  min_delegation = 1000000;
  unbonding_period = 14;
  max_commission = 5000;
  max_commission_change = 100;
  slots_per_epoch = 32;
  epoch_duration = 86400;
  double_sign_slash = 500;
  downtime_slash = 100;
  jail_duration = 7;
}

pub record Delegation : Type 0 where
  pub delegator : Address
  pub validator : Address
  pub amount : ℕ
  pub shares : ℕ
  pub last_claim_epoch : ℕ

pub record UnbondingEntry : Type 0 where
  pub delegator : Address
  pub validator : Address
  pub amount : ℕ
  pub completion_epoch : ℕ

pub record RewardPool : Type 0 where
  pub total_rewards : ℕ
  pub reward_per_share : ℕ
  pub epoch : ℕ

abbrev pub default_pool : RewardPool
default_pool = record { total_rewards = 0; reward_per_share = 0; epoch = 0 }

pub record ProofOfStake : Type 0 where
  pub config : StakingConfig
  pub current_epoch : ℕ
  pub validators : ValidatorSet
  pub delegations : Map (List Delegation)
  pub unbonding : List UnbondingEntry
  pub reward_pools : Map RewardPool

abbrev pub new : StakingConfig → ProofOfStake
new config = record {
  config = config;
  current_epoch = 0;
  validators = new_set 0;
  delegations = [];
  unbonding = [];
  reward_pools = [];
}

unfoldable pub register_validator :
    ProofOfStake → Address → List ℕ → ℕ → ℕ → ConsensusResult Unit × ProofOfStake
register_validator p address pubkey stake commission =
    if ltb stake p.config.min_validator_stake
    then (err (insufficient_stake p.config.min_validator_stake stake), p)
    else if ltb p.config.max_commission commission
    then (err (invalid_proposal commission_exceeds_maximum), p)
    else let fresh = new_validator address pubkey stake in
      let (r, set) = add_validator p.validators (record fresh { commission = commission }) in
      elim r [
        | err e ↦ (err e, record p { validators = set })
        | ok _ ↦ (
          ok tt,
          record p { validators = set; reward_pools = insert address default_pool p.reward_pools },
        )
      ]

abbrev pub share_precision : ℕ
share_precision = 1000000

-- The shares of all delegations to a validator.
unfoldable pub total_shares : Address → Map (List Delegation) → ℕ
total_shares validator dels =
    sum64 (map (λ d. d.shares) (select (λ d. d.validator == validator) (flatten (values dels))))

-- The shares that `amount` buys: the product of two u64 fits in a u128.
abbrev pub issued_shares : ℕ → ℕ → ℕ → ℕ
issued_shares amount shares stake =
    if stake == 0 || shares == 0
    then saturating_mul64 amount share_precision
    else amount * shares / stake % u64_mod

abbrev pub delegations_of : Address → Map (List Delegation) → List Delegation
delegations_of a dels = elim (lookup a dels) [ none ↦ [] | some ds ↦ ds ]

unfoldable pub delegate : ProofOfStake → Address → Address → ℕ → ConsensusResult Unit × ProofOfStake
delegate p delegator validator amount =
    if ltb amount p.config.min_delegation
    then (err (insufficient_stake p.config.min_delegation amount), p)
    else elim (lookup validator p.validators.validators) [
      | none ↦ (err (unknown_validator validator), p)
      | some v ↦ (
        ok tt,
        record p {
          validators = record (p.validators) {
            validators =
                modify validator (λ w. record w { stake = add64 w.stake amount })
                  p.validators.validators;
            total_stake = add64 p.validators.total_stake amount;
          };
          delegations =
              insert delegator
                (delegations_of delegator p.delegations
                  ++ record {
                    delegator = delegator;
                    validator = validator;
                    amount = amount;
                    shares = issued_shares amount (total_shares validator p.delegations) v.stake;
                    last_claim_epoch = p.current_epoch;
                  }
                    ∷ [])
                p.delegations;
        },
      )
    ]

-- `iter_mut().find(…)`: the first delegation to the validator.
abbrev pub find_delegation : Address → List Delegation → Option Delegation
find_delegation a [] = none
find_delegation a (d ∷ ds) = if d.validator == a then some d else find_delegation a ds

-- A write to the first delegation to the validator.
abbrev pub update_first : Address → (Delegation → Delegation) → List Delegation → List Delegation
update_first a f [] = []
update_first a f (d ∷ ds) = if d.validator == a then f d ∷ ds else d ∷ update_first a f ds

abbrev pub reduce : ℕ → Delegation → Delegation
reduce amount d = record d {
  amount = sub64 d.amount amount;
  shares = saturating_sub64 d.shares amount;
}

-- The delegations after an undelegation: `retain` if the first one is used up.
abbrev pub after_undelegate : Address → ℕ → Delegation → List Delegation → List Delegation
after_undelegate validator amount d ds =
    let reduced = update_first validator (reduce amount) ds in
    if sub64 d.amount amount == 0
    then select (λ x. not (x.validator == validator)) reduced
    else reduced

abbrev pub withdraw_stake : Address → ℕ → ValidatorSet → ValidatorSet
withdraw_stake validator amount s = elim (lookup validator s.validators) [
  | none ↦ s
  | some _ ↦ record s {
    validators =
        modify validator (λ w. record w { stake = saturating_sub64 w.stake amount }) s.validators;
    total_stake = saturating_sub64 s.total_stake amount;
  }
]

unfoldable pub undelegate :
    ProofOfStake → Address → Address → ℕ → ConsensusResult Unit × ProofOfStake
undelegate p delegator validator amount = elim (lookup delegator p.delegations) [
  | none ↦ (err (invalid_proposal no_delegation_found), p)
  | some ds ↦ elim (find_delegation validator ds) [
    | none ↦ (err (invalid_proposal no_delegation_to_validator), p)
    | some d ↦ if ltb d.amount amount then (err (insufficient_stake amount d.amount), p) else (
      ok tt,
      record p {
        delegations = modify delegator (after_undelegate validator amount d) p.delegations;
        validators = withdraw_stake validator amount p.validators;
        unbonding =
            p.unbonding
            ++ record {
              delegator = delegator;
              validator = validator;
              amount = amount;
              completion_epoch = add64 p.current_epoch p.config.unbonding_period;
            }
              ∷ [];
      },
    )
  ]
]

abbrev pub get_delegations : ProofOfStake → Address → List Delegation
get_delegations p a = delegations_of a p.delegations

abbrev pub get_unbonding : ProofOfStake → Address → List UnbondingEntry
get_unbonding p a = select (λ e. e.delegator == a) p.unbonding
