-- ===== src/Consensus/Pos/SlotLeader.antt =====
-- `select_leader`: with an active validator there is a leader for every slot.
use nexus_chain.Base.{
  ℕ, ◌%◌, ◌<◌, ◌≡◌, ap, ◌∙◌, some, List, [], ◌∷◌, map, arith, sum, u64_mod, select, ==-false,
}
use native.Mathlib.Nat.{mod-eq_of_lt}
use nexus_chain.Base.Map.{values}
use nexus_chain.Consensus.Errors.{Address, Hash}
use nexus_chain.Consensus.Validator.{Validator, is_eligible, active_validators, active_stake}
use nexus_chain.Consensus.Validator.Stake.{stake_of}
use nexus_chain.Consensus.Validator.Sampling.{pick, pick_chooses, IsChosen}
use nexus_chain.Consensus.Pos.State.{ProofOfStake}
use nexus_chain.Consensus.Pos.Rewards.{slot_random, select_leader, choose}

choose_found :
    (keccak256 : List ℕ → Hash) (epoch slot : ℕ) (randomness : Hash) (t : ℕ) (a : Address)
    (v : Validator) (vs : List Validator)
    → 0 < t
    → pick u64_mod 0 (slot_random keccak256 epoch slot randomness % t) (v ∷ vs) ≡ some a
    → choose keccak256 epoch slot randomness t (v ∷ vs) ≡ some (some a)
choose_found keccak256 epoch slot randomness t a v vs pos found =
    rw (==-false t 0 (omega arith)) (rw found)

-- Every active validator has a stake.
eligible_positive :
    (epoch : ℕ) (xs : List Validator) (v : Validator) (vs : List Validator)
    → select (λ x. is_eligible x epoch) xs ≡ v ∷ vs
    → 0 < v.stake
eligible_positive epoch [] v vs h = cc
eligible_positive epoch (x ∷ xs) v vs h = ground (arith, eligible_positive epoch xs v vs)

module _ (p : ProofOfStake) (v : Validator) (vs : List Validator) where
  active_stake-sum :
      active_validators p.validators ≡ v ∷ vs
      → sum (map stake_of (v ∷ vs)) < u64_mod
      → active_stake p.validators ≡ sum (map stake_of (v ∷ vs))
  unfolding active_stake
  active_stake-sum active fits = ap (λ l. sum (map stake_of l) % u64_mod) active ∙ mod-eq_of_lt fits

  select_leader_found :
      (keccak256 : List ℕ → Hash) (epoch slot : ℕ) (randomness : Hash) (a : Address)
      → active_validators p.validators ≡ v ∷ vs
      → sum (map stake_of (v ∷ vs)) < u64_mod
      → choose keccak256 epoch slot randomness (sum (map stake_of (v ∷ vs))) (v ∷ vs)
        ≡ some (some a)
      → select_leader keccak256 p epoch slot randomness ≡ some (some a)
  unfolding select_leader
  select_leader_found keccak256 epoch slot randomness a active fits found =
      ap (λ l. choose keccak256 epoch slot randomness (active_stake p.validators) l) active
      ∙ ap (λ t. choose keccak256 epoch slot randomness t (v ∷ vs)) (active_stake-sum active fits)
      ∙ found

-- Where some validator is active and the active stakes fit in a word, the slot has a leader: the
-- active validator in whose interval, as long as its stake, the random target lies. The remainder is
-- never taken by zero, and the loop never runs to its fallback.
select_leader_lem :
    (keccak256 : List ℕ → Hash) (p : ProofOfStake) (epoch slot : ℕ) (randomness : Hash)
    (v : Validator) (vs : List Validator)
    → active_validators p.validators ≡ v ∷ vs
    → sum (map stake_of (v ∷ vs)) < u64_mod
    → let total = sum (map stake_of (v ∷ vs)) in
      (w : Validator) × (select_leader keccak256 p epoch slot randomness ≡ some (some w.address))
      × IsChosen 0 (slot_random keccak256 epoch slot randomness % total) (v ∷ vs) w
unfolding active_validators
select_leader_lem keccak256 p epoch slot randomness v vs active fits =
    let total = sum (map stake_of (v ∷ vs)) in
    let pos : 0 < total =
      omega (
        arith,
        eligible_positive p.validators.epoch (values p.validators.validators) v vs active,
      ) in
    let below : slot_random keccak256 epoch slot randomness % total < total = grind arith in
    let (w, found, chosen) =
      pick_chooses u64_mod 0 (slot_random keccak256 epoch slot randomness % total) (v ∷ vs)
        (omega arith) (omega arith) (omega arith) in
    (
      w,
      select_leader_found p v vs keccak256 epoch slot randomness w.address active fits
          (choose_found keccak256 epoch slot randomness total w.address v vs pos found),
      chosen,
    )
