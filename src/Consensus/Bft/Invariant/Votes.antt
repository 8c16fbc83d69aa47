-- ===== src/Consensus/Bft/Invariant/Votes.antt =====
-- Every call of `BftConsensus` keeps the recorded votes and adds only signed ones.
use nexus_chain.Base.{
  ℕ, Bool, refl, List, [], ◌∷◌, ◌++◌, inl, inr, Bool-cases, Option-cases, Result-cases,
}
use nexus_chain.Base.Map.{insert, contains_key}
use nexus_chain.Consensus.Errors.{Hash}
use nexus_chain.Consensus.Validator.{get, has_supermajority}
use nexus_chain.Consensus.Bft.Crypto.{Crypto, as_bytes, verify_ecdsa}
use nexus_chain.Consensus.Bft.Messages.{
  Proposal, PrepareVote, CommitVote, ViewChangeRequest, prepare_hash, commit_hash, is_prepare,
  is_commit,
}
use nexus_chain.Consensus.Bft.Engine.{
  BftConsensus, on_commit, add_commit, vote_commit, add_prepare, on_prepare, vote_prepare,
  own_prepare, own_commit, advance_view, lock_on, voted_stake, prepare_voters, commit_voters,
}
use nexus_chain.Consensus.Bft.Proposals.{
  check_proposal, check_proposer, propose, on_proposal, accept, signed_proposal,
}
use nexus_chain.Consensus.Bft.Leader.{is_leader}
use nexus_chain.Consensus.Bft.Views.{on_view_change, request_view_change, requests_for, requesters}
use nexus_chain.Consensus.Bft.Calls.{
  Call, propose_call, proposal_call, prepare_call, commit_call, vote_prepare_call, vote_commit_call,
  view_change_call, request_call, advance_call, perform,
}
use nexus_chain.Consensus.Bft.Invariant.Effects.{
  IsPrepare, IsCommit, Turn-refl, Turn-clear, Turn-insert, Step,
}

module _ (c : Crypto) where
  -- The votes and the set are untouched.
  Step-refl : (b : BftConsensus c) → Step c b b
  Step-refl b = record { same_set = refl; prepares = Turn-refl _; commits = Turn-refl _ }

  advance_view-Step : (b : BftConsensus c) → Step c b (advance_view c b)
  unfolding advance_view
  advance_view-Step b = record { same_set = refl; prepares = Turn-clear _; commits = Turn-clear _ }

  add_commit-Step :
      (b : BftConsensus c) (v : CommitVote)
      → IsCommit c b.validator_set v.voter v
      → Step c b (add_commit c b v).1
  unfolding add_commit advance_view
  add_commit-Step b v good =
      let votes = insert v.voter v b.state.commit_votes in
      elim (Bool-cases (is_commit b.state.phase)) [
        | inr other ↦ rw other (Step-refl b)
        | inl commit ↦ elim (Bool-cases (contains_key v.voter b.state.commit_votes)) [
          | inl twice ↦ rw (commit, twice) (Step-refl b)
          | inr new ↦
              elim (Bool-cases (
                has_supermajority b.validator_set
                  (voted_stake b.validator_set (commit_voters votes)))) [
                    | inl enough ↦
                        rw (commit, new, enough)
                          (record {
                            same_set = refl;
                            prepares = Turn-clear _;
                            commits = Turn-clear _;
                          })
                    | inr few ↦
                        rw (commit, new, few)
                          (record {
                            same_set = refl;
                            prepares = Turn-refl _;
                            commits = Turn-insert v.voter v _ votes new good (Turn-refl votes);
                          })
                  ]
        ]
      ]

  on_commit-Step : (b : BftConsensus c) (v : CommitVote) → Step c b (on_commit c b v).1
  unfolding on_commit
  on_commit-Step b v = elim (Option-cases (get b.validator_set v.voter)) [
    | inl unknown ↦ rw (unknown, on_commit) (Step-refl b)
    | inr (w, known) ↦
        elim (Bool-cases (verify_ecdsa c w.pubkey (as_bytes (commit_hash c v)) v.signature)) [
          | inl signed ↦
              rw (known, signed, on_commit) (add_commit-Step b v (refl, w, known, signed))
          | inr forged ↦ rw (known, forged, on_commit) (Step-refl b)
        ]
  ]

  vote_commit-Step : (b : BftConsensus c) (x : Hash) → Step c b (vote_commit c b x).1
  unfolding vote_commit
  vote_commit-Step b x = on_commit-Step b (own_commit c b x)

  add_prepare-Step :
      (b : BftConsensus c) (v : PrepareVote)
      → IsPrepare c b.validator_set v.voter v
      → Step c b (add_prepare c b v).1
  unfolding add_prepare
  add_prepare-Step b v good =
      let votes = insert v.voter v b.state.prepare_votes in
      let voted = record (b.state) { prepare_votes = votes } in
      elim (Bool-cases (is_prepare b.state.phase)) [
        | inr other ↦ rw other (Step-refl b)
        | inl prepare ↦ elim (Bool-cases (contains_key v.voter b.state.prepare_votes)) [
          | inl twice ↦ rw (prepare, twice) (Step-refl b)
          | inr new ↦
              elim (Bool-cases (
                has_supermajority b.validator_set
                  (voted_stake b.validator_set (prepare_voters votes)))) [
                    | inl enough ↦
                        let h =
                          vote_commit-Step (record b { state = lock_on c v.vertex_hash voted })
                            v.vertex_hash in
                        rw (prepare, new, enough)
                          (record {
                            same_set = h.same_set;
                            prepares = Turn-insert v.voter v _ _ new good h.prepares;
                            commits = h.commits;
                          })
                    | inr few ↦
                        rw (prepare, new, few)
                          (record {
                            same_set = refl;
                            prepares = Turn-insert v.voter v _ votes new good (Turn-refl votes);
                            commits = Turn-refl _;
                          })
                  ]
        ]
      ]

  on_prepare-Step : (b : BftConsensus c) (v : PrepareVote) → Step c b (on_prepare c b v).1
  unfolding on_prepare
  on_prepare-Step b v = elim (Option-cases (get b.validator_set v.voter)) [
    | inl unknown ↦ rw (unknown, on_prepare) (Step-refl b)
    | inr (w, known) ↦
        elim (Bool-cases (verify_ecdsa c w.pubkey (as_bytes (prepare_hash c v)) v.signature)) [
          | inl signed ↦
              rw (known, signed, on_prepare) (add_prepare-Step b v (refl, w, known, signed))
          | inr forged ↦ rw (known, forged, on_prepare) (Step-refl b)
        ]
  ]

  vote_prepare-Step : (b : BftConsensus c) (x : Hash) → Step c b (vote_prepare c b x).1
  unfolding vote_prepare
  vote_prepare-Step b x = on_prepare-Step b (own_prepare c b x)

  -- An accepted proposal touches no vote.
  accepted-Step :
      (b : BftConsensus c) (p : Proposal) (x : Hash) → Step c b (vote_prepare c (accept c b p) x).1
  accepted-Step b p x =
      let h = vote_prepare-Step (accept c b p) x in
      record { same_set = h.same_set; prepares = h.prepares; commits = h.commits }

  propose-Step : (b : BftConsensus c) (x : Hash) (ps : List Hash) → Step c b (propose c b x ps).1
  unfolding propose
  propose-Step b x ps =
      let p = signed_proposal c b x ps in
      elim (Bool-cases (is_leader c b)) [
        | inr other ↦ rw other (Step-refl b)
        | inl leads ↦ elim (Result-cases (vote_prepare c (accept c b p) x).0) [
          | inl (e, failed) ↦ rw (leads, failed) (accepted-Step b p x)
          | inr (_, done) ↦ rw (leads, done) (accepted-Step b p x)
        ]
      ]

  on_proposal-Step :
      (g : ℕ → Bool) (b : BftConsensus c) (p : Proposal)
      → Step c b (perform c g b (proposal_call p))
  unfolding perform on_proposal
  on_proposal-Step g b p = elim (Result-cases (check_proposal b.state p)) [
    | inl (e, refused) ↦ rw (refused, perform, on_proposal) (Step-refl b)
    | inr (_, fits) ↦ elim (Result-cases (check_proposer c b p)) [
      | inl (e, refused) ↦ rw (fits, refused, perform, on_proposal) (Step-refl b)
      | inr (_, signed) ↦ elim (Bool-cases (g 1)) [
        | inl granted ↦
            rw (fits, signed, granted, perform, on_proposal) (accepted-Step b p p.vertex_hash)
        | inr waits ↦ rw (fits, signed, waits, perform, on_proposal) (Step-refl b)
      ]
    ]
  ]

  on_view_change-Step :
      (b : BftConsensus c) (r : ViewChangeRequest) → Step c b (on_view_change c b r).1
  unfolding on_view_change
  on_view_change-Step b r =
      let votes = requests_for r.new_view b.view_change_votes ++ r ∷ [] in
      elim (Option-cases (get b.validator_set r.requester)) [
        | inl unknown ↦ rw (unknown, on_view_change) (Step-refl b)
        | inr (w, known) ↦
            elim (Bool-cases (
              has_supermajority b.validator_set (voted_stake b.validator_set (requesters votes)))) [
                | inl enough ↦
                    rw (known, enough, on_view_change)
                      (record { same_set = refl; prepares = Turn-clear _; commits = Turn-clear _ })
                | inr few ↦
                    rw (known, few, on_view_change)
                      (record { same_set = refl; prepares = Turn-refl _; commits = Turn-refl _ })
              ]
      ]

  pub perform-Step : (g : ℕ → Bool) (b : BftConsensus c) (x : Call) → Step c b (perform c g b x)
  unfolding perform request_view_change
  perform-Step g b (propose_call x ps) = propose-Step b x ps
  perform-Step g b (proposal_call p) = on_proposal-Step g b p
  perform-Step g b (prepare_call v) = on_prepare-Step b v
  perform-Step g b (commit_call v) = on_commit-Step b v
  perform-Step g b (vote_prepare_call x) = vote_prepare-Step b x
  perform-Step g b (vote_commit_call x) = vote_commit-Step b x
  perform-Step g b (view_change_call r) = on_view_change-Step b r
  perform-Step g b (request_call n) = on_view_change-Step b _
  perform-Step g b advance_call = advance_view-Step b
