-- ===== src/Consensus/Bft/Finality.antt =====
-- When a vertex becomes final, and what the engine can show for it afterwards.
use nexus_chain.Base.{
  ℕ, Bool, true, ◌≡◌, ◌↔◌, refl, none, some, List, [], ◌∷◌, ok, arith, inl, inr, Option-cases, elem,
  add64,
}
use nexus_chain.Base.Map.{Map, lookup, contains_key, remove, insert}
use nexus_chain.Consensus.Errors.{Hash}
use nexus_chain.Consensus.Validator.{Validator, get, has_supermajority}
use nexus_chain.Consensus.Bft.Crypto.{Crypto, as_bytes, verify_ecdsa}
use nexus_chain.Consensus.Bft.Messages.{
  PrepareVote, CommitVote, ViewChangeRequest, new_round, commit, commit_hash,
}
use nexus_chain.Consensus.Bft.Engine.{
  BftConsensus, on_commit, add_commit, vote_commit, add_prepare, on_prepare, vote_prepare,
  own_prepare, own_commit, lock_on, insert_finalized, advance_view, voted_stake, commit_voters,
}
use nexus_chain.Consensus.Bft.Proposals.{propose, on_proposal, accept, signed_proposal}
use nexus_chain.Consensus.Bft.Views.{
  on_view_change, request_view_change, is_finalized, get_finality_certificate,
}
use nexus_chain.Consensus.Bft.Calls.{
  Call, propose_call, proposal_call, prepare_call, commit_call, vote_prepare_call, vote_commit_call,
  view_change_call, request_call, advance_call, perform, run,
}

-- The votes of the round once `v` is among them.
abbrev pub with_commit : CommitVote → Map CommitVote → Map CommitVote
with_commit v votes = insert v.voter v votes

-- A known validator with a valid signature, who has not voted yet in this round, completes a
-- supermajority in the commit phase.
pub record Completes (c : Crypto) (b : BftConsensus c) (v : CommitVote) : Type 0 where
  pub validator : Validator
  pub known : get b.validator_set v.voter ≡ some validator
  pub signed : verify_ecdsa c validator.pubkey (as_bytes (commit_hash c v)) v.signature ≡ true
  pub in_commit : b.state.phase ≡ commit
  pub first : lookup v.voter b.state.commit_votes ≡ none
  pub enough :
      has_supermajority b.validator_set
        (voted_stake b.validator_set (commit_voters (with_commit v b.state.commit_votes)))
      ≡ true

module _ (c : Crypto) (b : BftConsensus c) (v : CommitVote) where
  reports-Completes :
      {h : Hash} → (on_commit c b v).0 ≡ ok (some h) → Completes c b v × (h ≡ v.vertex_hash)
  unfolding on_commit add_commit
  reports-Completes e = elim (Option-cases (get b.validator_set v.voter)) [
    | inl absent ↦ ground arith
    | inr (w, known) ↦ (
      record {
        validator = w;
        known = known;
        signed = ground arith;
        in_commit = ground arith;
        first = ground arith;
        enough = ground arith;
      },
      ground arith,
    )
  ]

  -- `on_commit` reports a vertex as final exactly when the vote completes a supermajority in the
  -- commit phase, first of its voter and well signed; the vertex is that of this last vote.
  pub on_commit_reports :
      (h : Hash) → ((on_commit c b v).0 ≡ ok (some h)) ↔ (Completes c b v × (h ≡ v.vertex_hash))
  unfolding on_commit add_commit
  on_commit_reports h = (
    reports-Completes,
    λ d. let w = d.0 in ground (arith, w.known, w.signed, w.in_commit, w.first, w.enough),
  )

  -- A vertex that `on_commit` reports is finalized, the engine is at the start of the next view with
  -- no votes, and from then on there is no finality certificate for it.
  pub on_commit_advances :
      (h : Hash)
      → (on_commit c b v).0 ≡ ok (some h)
      → let b' = (on_commit c b v).1 in
        (is_finalized c b' h ≡ true)
        × (b'.state.view ≡ add64 b.state.view 1)
        × (b'.state.phase ≡ new_round)
        × (b'.state.commit_votes ≡ [])
        × (get_finality_certificate c b' h ≡ none)
  unfolding on_commit add_commit advance_view get_finality_certificate has_supermajority voted_stake
  on_commit_advances h e = ground arith

-- The votes of a round with other vertices, views and signatures in them, under the same voters.
abbrev pub relabel : (CommitVote → CommitVote) → Map CommitVote → Map CommitVote
relabel f [] = []
relabel f ((k, v) ∷ votes) = (k, f v) ∷ relabel f votes

module _ (f : CommitVote → CommitVote) (same : (v : CommitVote) → (f v).voter ≡ v.voter) where
  contains-relabel :
      (k : ℕ) (votes : Map CommitVote) → contains_key k (relabel f votes) ≡ contains_key k votes
  contains-relabel k [] = refl
  contains-relabel k (e ∷ votes) = ground (arith, contains-relabel k votes)

  voters-relabel :
      (k : ℕ) (votes : Map CommitVote)
      → commit_voters (remove k (relabel f votes)) ≡ commit_voters (remove k votes)
  voters-relabel k [] = refl
  voters-relabel k (e ∷ votes) = ground (arith, voters-relabel k votes, same e.1)

  -- What the recorded commit votes say does not matter: with any other vertices in place of theirs
  -- the engine reports the same result and finalizes the same vertices.
  pub add_commit-relabel :
      (c : Crypto) (b : BftConsensus c) (v : CommitVote)
      → let b' = record b {
        state = record (b.state) { commit_votes = relabel f b.state.commit_votes };
      } in
        ((add_commit c b' v).0 ≡ (add_commit c b v).0)
        × ((add_commit c b' v).1.finalized_set ≡ (add_commit c b v).1.finalized_set)
  unfolding add_commit advance_view
  add_commit-relabel c b v = ground (
    arith,
    contains-relabel v.voter b.state.commit_votes,
    voters-relabel v.voter b.state.commit_votes,
  )

elem-insert_finalized :
    (c : Crypto) (h x : Hash) (hs : List Hash)
    → elem h hs ≡ true
    → elem h (insert_finalized c x hs) ≡ true
elem-insert_finalized c h x hs e = ground arith

module _ (c : Crypto) (h : Hash) where
  add_commit-keeps :
      (b : BftConsensus c) (v : CommitVote)
      → is_finalized c b h ≡ true
      → is_finalized c (add_commit c b v).1 h ≡ true
  unfolding add_commit advance_view
  add_commit-keeps b v e = ground (arith, elem-insert_finalized c h v.vertex_hash b.finalized_set e)

  on_commit-keeps :
      (b : BftConsensus c) (v : CommitVote)
      → is_finalized c b h ≡ true
      → is_finalized c (on_commit c b v).1 h ≡ true
  unfolding on_commit
  on_commit-keeps b v e = ground (arith, add_commit-keeps b v e)

  on_prepare-keeps :
      (b : BftConsensus c) (v : PrepareVote)
      → is_finalized c b h ≡ true
      → is_finalized c (on_prepare c b v).1 h ≡ true
  unfolding on_prepare add_prepare vote_commit
  on_prepare-keeps b v e =
      let voted = record (b.state) { prepare_votes = insert v.voter v b.state.prepare_votes } in
      let locked = record b { state = lock_on c v.vertex_hash voted } in
      ground (arith, on_commit-keeps locked (own_commit c locked v.vertex_hash))

  on_view_change-keeps :
      (b : BftConsensus c) (r : ViewChangeRequest)
      → is_finalized c b h ≡ true
      → is_finalized c (on_view_change c b r).1 h ≡ true
  unfolding on_view_change
  on_view_change-keeps b r e = ground arith

  perform-keeps :
      (g : ℕ → Bool) (b : BftConsensus c) (x : Call)
      → is_finalized c b h ≡ true
      → is_finalized c (perform c g b x) h ≡ true
  unfolding perform propose on_proposal vote_prepare vote_commit request_view_change advance_view
  perform-keeps g b (propose_call x ps) e =
      let b' = accept c b (signed_proposal c b x ps) in
      ground (arith, on_prepare-keeps b' (own_prepare c b' x))
  perform-keeps g b (proposal_call p) e =
      ground (arith, on_prepare-keeps (accept c b p) (own_prepare c (accept c b p) p.vertex_hash))
  perform-keeps g b (prepare_call v) e = on_prepare-keeps b v e
  perform-keeps g b (commit_call v) e = on_commit-keeps b v e
  perform-keeps g b (vote_prepare_call x) e = on_prepare-keeps b (own_prepare c b x) e
  perform-keeps g b (vote_commit_call x) e = on_commit-keeps b (own_commit c b x) e
  perform-keeps g b (view_change_call r) e = on_view_change-keeps b r e
  perform-keeps g b (request_call n) e = on_view_change-keeps b _ e
  perform-keeps g b advance_call e = e

  -- A finalized vertex stays finalized, whatever calls follow, accepted, refused or blocked.
  pub run-keeps_finalized :
      (grants_write : ℕ → Bool) (b : BftConsensus c) (calls : List Call)
      → is_finalized c b h ≡ true
      → is_finalized c (run c grants_write b calls) h ≡ true
  unfolding run
  run-keeps_finalized g b [] e = e
  run-keeps_finalized g b (x ∷ xs) e =
      run-keeps_finalized g (perform c g b x) xs (perform-keeps g b x e)
