-- ===== src/Consensus/Pos/Claims.antt =====
-- `claim_rewards`.
use nexus_chain.Base.{ℕ, ◌≡◌, refl, List, [], ◌∷◌, map, arith, inl, inr, Option-cases}
use nexus_chain.Base.Map.{Map, lookup, lookup-modify}
use nexus_chain.Consensus.Errors.{Address}
use nexus_chain.Consensus.Pos.State.{ProofOfStake, Delegation, RewardPool}
use nexus_chain.Consensus.Pos.Rewards.{pending_reward, mark_claimed, claim_rewards}

-- A claim marks the delegations and leaves what they can claim as it was.
pending-mark_claimed :
    (epoch : ℕ) (pools : Map RewardPool) (ds : List Delegation)
    → map (pending_reward pools) (map (mark_claimed epoch pools) ds) ≡ map (pending_reward pools) ds
pending-mark_claimed epoch pools [] = refl
pending-mark_claimed epoch pools (d ∷ ds) = ground (arith, pending-mark_claimed epoch pools ds)

-- A claim returns the rewards of all epochs, and the next claim, in the same epoch or later, returns
-- the same again: the state that a claim leaves gives every later claim the same result until the
-- pools change.
claim_again :
    (p : ProofOfStake) (a : Address)
    → (claim_rewards (claim_rewards p a).1 a).0 ≡ (claim_rewards p a).0
unfolding claim_rewards
claim_again p a = elim (Option-cases (lookup a p.delegations)) [
  | inl absent ↦ ground arith
  | inr (ds, here) ↦
      let marked = map (mark_claimed p.current_epoch p.reward_pools) in
      ground (
        arith,
        lookup-modify a a marked ds p.delegations here,
        pending-mark_claimed p.current_epoch p.reward_pools ds,
      )
]
