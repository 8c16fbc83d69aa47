-- ===== src/Dag/Finality/Candidate.antt =====
-- `find_best_candidate` and `create_vote` of finality.rs. `none` is a search out of fuel.
pub mod Best
use nexus_chain.Base.{
  ℕ, zero, suc, ◌+◌, ◌-◌, Bool, true, false, ◌||◌, List, [], ◌∷◌, Option, none, some, Result, ok,
  err, ◌>>=◌, if◌then◌else◌, ◌==◌, add64,
}
use nexus_chain.Primitives.Errors.{NexusError}
use nexus_chain.Primitives.Merkle.{Hash}
use nexus_chain.Primitives.Signature.{Secp}
use nexus_chain.Dag.Vertex.{no_hashes}
use nexus_chain.Dag.Graph.{Dag}
use nexus_chain.Dag.Graph.Queries.{get_tips, get_vertices_at_height, latest_height, is_ancestor}
use nexus_chain.Dag.Finality.{FinalityVote, FinalityGadget, new_vote}

-- `all` over the tips.
unfoldable pub is_common_ancestor : Dag → Hash → List Hash → Option Bool
is_common_ancestor d h [] = some true
is_common_ancestor d h (tip ∷ tips) =
    let rest = is_common_ancestor d h tips in
    elim (is_ancestor d h tip) [
      | none ↦ none
      | some found ↦ if found || tip == h then rest else some false
    ]

-- The inner loop, over the vertices of one height.
unfoldable pub first_common : Dag → List Hash → List Hash → Option (Option Hash)
first_common d tips [] = some none
first_common d tips (h ∷ hs) =
    let rest = first_common d tips hs in
    elim (is_common_ancestor d h tips) [
      | none ↦ none
      | some common ↦ if common then some (some h) else rest
    ]

-- The outer loop, down the `n` heights from `low` up.
unfoldable pub candidate_from : Dag → List Hash → ℕ → ℕ → Option (Option (Hash × ℕ))
candidate_from d tips low zero = some none
candidate_from d tips low (suc n) =
    let lower = candidate_from d tips low n in
    elim (first_common d tips (get_vertices_at_height d (low + n))) [
      | none ↦ none
      | some none ↦ lower
      | some (some h) ↦ some (some (h, low + n))
    ]

unfoldable pub find_best_candidate : FinalityGadget → Dag → Option (Option (Hash × ℕ))
find_best_candidate g d =
    let low = add64 g.state.finalized_height 1 in
    if no_hashes (get_tips d)
    then some none
    else candidate_from d (get_tips d) low (latest_height d + 1 - low)

module _ (c : Secp) where
  open c use {SigningKey}

  -- The vote for a candidate, in the gadget's round.
  abbrev pub vote_for :
      FinalityGadget
      → Hash
      → SigningKey
      → Option (Hash × ℕ)
      → Result NexusError (Option FinalityVote)
  vote_for g voter key none = ok none
  vote_for g voter key (some (hash, height)) =
      new_vote c g.state.round hash height voter key >>= λ vote. ok (some vote)

  unfoldable pub create_vote :
      FinalityGadget → Dag → Hash → SigningKey → Option (Result NexusError (Option FinalityVote))
  create_vote g d voter key = elim (find_best_candidate g d) [
    | none ↦ none
    | some candidate ↦ some (vote_for g voter key candidate)
  ]
