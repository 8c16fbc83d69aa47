-- ===== src/Consensus/Pos/Stakes.antt =====
-- The methods of `ProofOfStake` that move stake: errors change nothing, and the running total of
-- the validator set stays exact.
use nexus_chain.Base.{ℕ, ◌+◌, ◌≤◌, ◌<◌, ◌≡◌, none, some, List, err, arith, inl, inr, ◌⊎◌, u64_mod}
use nexus_chain.Base.Map.{lookup}
use nexus_chain.Consensus.Errors.{Address, ConsensusError}
use nexus_chain.Consensus.Validator.{
  Validator, new_validator, add_validator, apply_change, stake_increase, stake_decrease,
}
use nexus_chain.Consensus.Validator.Stake.{
  IsConsistent, stakes, apply_change-IsConsistent, add_validator-IsConsistent,
}
use nexus_chain.Consensus.Pos.State.{ProofOfStake, register_validator, delegate, undelegate}

-- An error of `register_validator`, `delegate` or `undelegate` leaves the state as it was.
stake_errors :
    (p : ProofOfStake) (a v : Address) (pubkey : List ℕ) (n commission : ℕ) (e : ConsensusError)
    → ((register_validator p a pubkey n commission).0 ≡ err e
        → (register_validator p a pubkey n commission).1 ≡ p)
      × ((delegate p a v n).0 ≡ err e → (delegate p a v n).1 ≡ p)
      × ((undelegate p a v n).0 ≡ err e → (undelegate p a v n).1 ≡ p)
unfolding register_validator add_validator delegate undelegate
stake_errors p a v pubkey n commission e = (λ h. ground arith, λ h. ground arith, λ h. ground arith)

-- Delegation and undelegation move stake as the changes of an epoch do.
validators-delegate :
    (p : ProofOfStake) (a v : Address) (n : ℕ)
    → ((delegate p a v n).1.validators ≡ p.validators)
      ⊎ ((delegate p a v n).1.validators ≡ (apply_change p.validators (stake_increase v n)).1)
unfolding delegate apply_change
validators-delegate p a v n = ground arith

validators-undelegate :
    (p : ProofOfStake) (a v : Address) (n : ℕ)
    → ((undelegate p a v n).1.validators ≡ p.validators)
      ⊎ ((undelegate p a v n).1.validators ≡ (apply_change p.validators (stake_decrease v n)).1)
unfolding undelegate apply_change
validators-undelegate p a v n = ground arith

-- The total of the validator set stays the sum of the stakes: on a registration under a new address,
-- on a delegation, and on an undelegation of no more than the validator's stake, while the stakes
-- fit in a word.
pub stake-IsConsistent :
    (p : ProofOfStake) (a v : Address) (pubkey : List ℕ) (n commission : ℕ)
    → IsConsistent p.validators
    → stakes p.validators + n < u64_mod
    → (lookup a p.validators.validators ≡ none
        → IsConsistent (register_validator p a pubkey n commission).1.validators)
      × IsConsistent (delegate p a v n).1.validators
      × (((w : Validator) → lookup v p.validators.validators ≡ some w → n ≤ w.stake)
          → IsConsistent (undelegate p a v n).1.validators)
unfolding register_validator
stake-IsConsistent p a v pubkey n commission c room =
    let fresh = new_validator a pubkey n in
    (
      λ unknown. ground (
        arith,
        add_validator-IsConsistent p.validators (record fresh { commission = commission }) c unknown
            room,
      ),
      elim (validators-delegate p a v n) [
        | inl same ↦ rw same c
        | inr moved ↦ rw moved (apply_change-IsConsistent p.validators (stake_increase v n) c room)
      ],
      λ covered. elim (validators-undelegate p a v n) [
        | inl same ↦ rw same c
        | inr moved ↦
            rw moved (apply_change-IsConsistent p.validators (stake_decrease v n) c covered)
      ],
    )
