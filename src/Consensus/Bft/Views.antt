-- ===== src/Consensus/Bft/Views.antt =====
-- View changes and the queries of bft.rs.
use nexus_chain.Base.{
  ℕ, Bool, Option, none, some, List, [], ◌∷◌, ◌++◌, map, ok, err, if◌then◌else◌, ◌==◌, select, elem,
  to_le_bytes,
}
use nexus_chain.Base.Map.{Map, lookup, insert, values}
use nexus_chain.Consensus.Errors.{Address, Hash, ConsensusResult, unknown_validator}
use nexus_chain.Consensus.Validator.{get, has_supermajority}
use nexus_chain.Consensus.Bft.Crypto.{Crypto, sign}
use nexus_chain.Consensus.Bft.Messages.{CommitVote, ViewChangeRequest, BftPhase}
use nexus_chain.Consensus.Bft.Engine.{BftConsensus, voted_stake, enter_view}

abbrev pub requests_for : ℕ → Map (List ViewChangeRequest) → List ViewChangeRequest
requests_for view votes = elim (lookup view votes) [ none ↦ [] | some rs ↦ rs ]

abbrev pub requesters : List ViewChangeRequest → List Address
requesters rs = map (λ r. r.requester) rs

module _ (c : Crypto) where
  unfoldable pub on_view_change :
      BftConsensus c → ViewChangeRequest → ConsensusResult Unit × BftConsensus c
  on_view_change b request = elim (get b.validator_set request.requester) [
    | none ↦ (err (unknown_validator request.requester), b)
    | some _ ↦
        let votes = requests_for request.new_view b.view_change_votes ++ request ∷ [] in
        let recorded = record b {
          view_change_votes = insert request.new_view votes b.view_change_votes;
        } in
        if has_supermajority b.validator_set (voted_stake b.validator_set (requesters votes))
        then (ok tt, record recorded { state = enter_view c request.new_view b.state })
        else (ok tt, recorded)
  ]

  unfoldable pub request_view_change : BftConsensus c → ℕ → ConsensusResult Unit × BftConsensus c
  request_view_change b new_view = on_view_change b (record {
    requester = b.keys.address;
    new_view = new_view;
    last_prepared = b.state.locked_vertex;
    signature = sign c b.keys (to_le_bytes 8 new_view);
  })

  abbrev pub is_finalized : BftConsensus c → Hash → Bool
  is_finalized b hash = elem hash b.finalized_set

  abbrev pub current_view : BftConsensus c → ℕ
  current_view b = b.state.view

  abbrev pub current_phase : BftConsensus c → BftPhase
  current_phase b = b.state.phase

  unfoldable pub get_finality_certificate : BftConsensus c → Hash → Option (List CommitVote)
  get_finality_certificate b hash =
      let commits = select (λ v. v.vertex_hash == hash) (values b.state.commit_votes) in
      if has_supermajority b.validator_set
        (voted_stake b.validator_set (map (λ v. v.voter) commits))
      then some commits
      else none
