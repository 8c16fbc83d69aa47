-- ===== src/Consensus/Bft/Election.antt =====
-- `weighted_leader`: every view has a leader, chosen in proportion to the stakes.
use nexus_chain.Base.{ℕ, ◌%◌, ◌<◌, ◌≡◌, Option, none, some, map, arith, sum, u128_mod, ==-false}
use nexus_chain.Consensus.Errors.{Address}
use nexus_chain.Consensus.Validator.{Validator, active_validators}
use nexus_chain.Consensus.Validator.Stake.{stake_of}
use nexus_chain.Consensus.Validator.Sampling.{pick, pick_chooses, IsChosen}
use nexus_chain.Consensus.Bft.Crypto.{Crypto}
use nexus_chain.Consensus.Bft.Engine.{BftConsensus}
use nexus_chain.Consensus.Bft.Leader.{weighted_leader, leader_rand}
use native.Mathlib.Nat.{mod-eq_of_lt}

module _ (c : Crypto) (b : BftConsensus c) where
  -- The active stakes, with no wrap-around.
  abbrev total : ℕ
  total = sum (map stake_of (active_validators b.validator_set))

  weighted_leader_found :
      (a : Option Address)
      → 0 < total
      → total < u128_mod
      → pick u128_mod 0 (leader_rand c b % total) (active_validators b.validator_set) ≡ a
      → weighted_leader c b ≡ a
  unfolding weighted_leader
  weighted_leader_found a pos fits found =
      let exact : total % u128_mod ≡ total = mod-eq_of_lt fits in
      rw (exact, ==-false total 0 (omega arith)) found

-- Where the active stakes sum up to a positive number that fits in a u128, there is a weighted
-- leader: the active validator in whose interval, as long as its stake, the random target lies.
-- Where they sum up to nothing there is none.
pub weighted_leader_lem :
    (c : Crypto) (b : BftConsensus c)
    → let active = active_validators b.validator_set in
      let total = sum (map stake_of active) in
      (total ≡ 0 → weighted_leader c b ≡ none)
      × (0 < total
          → total < u128_mod
          → (v : Validator) × (weighted_leader c b ≡ some v.address)
            × IsChosen 0 (leader_rand c b % total) active v)
unfolding weighted_leader
weighted_leader_lem c b =
    let active = active_validators b.validator_set in
    let all = sum (map stake_of active) in
    (
      λ zero_total. ground arith,
      λ pos fits.
          let below : leader_rand c b % all < all = grind arith in
          let (v, found, chosen) =
            pick_chooses u128_mod 0 (leader_rand c b % all) active (omega arith) (omega arith)
              (omega arith) in
          (v, weighted_leader_found c b (some v.address) pos fits found, chosen),
    )
