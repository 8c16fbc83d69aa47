-- ===== src/Dag/Finality/Tests.antt =====
-- A gadget of finality.rs with three validators, two votes short of a proof.
use nexus_chain.Base.{
  ℕ, ◌≡◌, refl, sym, false, List, [], ◌∷◌, Option, none, some, Result, ok, err, arith,
}
use mathlib.Core.Path.{subst}
use nexus_chain.Base.Map.{values}
use nexus_chain.Primitives.Errors.{NexusError}
use nexus_chain.Primitives.Merkle.{Hash}
use nexus_chain.Primitives.Signature.{verify_signature, to_verifying_key}
use nexus_chain.Primitives.Signature.Toy.{toy}
use nexus_chain.Dag.Vertex.{zero_signature}
use nexus_chain.Dag.Graph.{new_dag}
use nexus_chain.Dag.Graph.Tests.{origin, grown, grown-IsDag, grown-IsSmall}
use nexus_chain.Dag.Finality.{
  default_config, ValidatorInfo, FinalityVote, FinalityProof, FinalityGadget, new_gadget, add_vote,
  try_finalize, has_supermajority,
}
use nexus_chain.Dag.Finality.Proofs.{IsGadget, Added, add_vote-Added}
use nexus_chain.Dag.Finality.Heights.{Call, vote, epoch, run, IsFinality, run-IsFinality}
use nexus_chain.Dag.Finality.Missed.{vote_weight, try_finalize-none}
use nexus_chain.Dag.Finality.Candidate.{find_best_candidate}
use nexus_chain.Dag.Finality.Candidate.Best.{IsBest, find_best_candidate-IsBest}

abbrev validator : Hash → ValidatorInfo
validator id = record { id = id; public_key = id ∷ []; stake = 100; address = id }

abbrev validators : List ValidatorInfo
validators = validator 1 ∷ validator 2 ∷ validator 3 ∷ []

abbrev ballot : Hash → FinalityVote
ballot voter = record {
  round = 0;
  target_hash = 16;
  target_height = 2;
  voter = voter;
  signature = zero_signature;
}

abbrev empty : FinalityGadget
empty = new_gadget default_config validators

abbrev one_vote : FinalityGadget
one_vote = (add_vote toy empty (ballot 1)).1

abbrev two_votes : FinalityGadget
two_votes = (add_vote toy one_vote (ballot 2)).1

keeps_IsGadget :
    (g : FinalityGadget) (o : Result NexusError (Option FinalityProof) × FinalityGadget)
    → IsGadget toy g
    → Added toy g o
    → IsGadget toy o.1
keeps_IsGadget g (err e, g') i same = subst (IsGadget toy) (sym same) i
keeps_IsGadget g (ok none, g') i a = a.2
keeps_IsGadget g (ok (some p), g') i a = a.1

two_votes-IsGadget : IsGadget toy two_votes
two_votes-IsGadget =
    let first =
      keeps_IsGadget empty (add_vote toy empty (ballot 1)) (tt, tt)
        (add_vote-Added toy empty (ballot 1) (tt, tt)) in
    keeps_IsGadget one_vote (add_vote toy one_vote (ballot 2)) first
      (add_vote-Added toy one_vote (ballot 2) first)

-- The third vote brings more than two thirds of the weight.
add_vote-Added_example : Added toy two_votes (add_vote toy two_votes (ballot 3))
add_vote-Added_example = add_vote-Added toy two_votes (ballot 3) two_votes-IsGadget

third_vote : (add_vote toy two_votes (ballot 3)).1.state.finalized_height ≡ 2
unfolding try_finalize add_vote verify_signature to_verifying_key has_supermajority
third_vote = refl

abbrev calls : List Call
calls = vote (ballot 1) ∷ vote (ballot 2) ∷ vote (ballot 3) ∷ epoch validators 1 ∷ []

run-IsFinality_example : IsFinality toy (
    run toy
      (new_gadget default_config validators, new_dag nexus_chain.Dag.Graph.default_config)
      calls)
run-IsFinality_example =
    run-IsFinality toy default_config validators (new_dag nexus_chain.Dag.Graph.default_config)
      calls refl

no_proof_yet : (try_finalize one_vote).0 ≡ none
unfolding try_finalize add_vote verify_signature to_verifying_key has_supermajority
no_proof_yet = refl

nothing_final : one_vote.state.finalized_height ≡ 0
unfolding try_finalize add_vote verify_signature to_verifying_key has_supermajority
nothing_final = refl

try_finalize-none_example :
    has_supermajority one_vote.validator_set
      (vote_weight one_vote.validator_set 16 2 (values one_vote.state.votes) 0)
    ≡ false
try_finalize-none_example =
    try_finalize-none one_vote 16 2 no_proof_yet (rw nothing_final (omega arith))

find_best_candidate-IsBest_example :
    (r : Option (Hash × ℕ)) × (find_best_candidate empty grown ≡ some r)
    × IsBest grown empty.state.finalized_height r
find_best_candidate-IsBest_example =
    find_best_candidate-IsBest grown origin grown-IsDag grown-IsSmall empty (omega arith)
