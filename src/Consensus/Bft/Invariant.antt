-- ===== src/Consensus/Bft/Invariant.antt =====
-- What holds of the engine between two calls, whatever the calls.
pub mod Effects
pub mod Votes
use nexus_chain.Base.{ℕ, Bool, ◌≡◌, ◌≢◌, refl, ◌∙◌, List, [], ◌∷◌, arith}
use mathlib.Core.Path.{subst}
use nexus_chain.Base.Map.{Unique, insert-Unique, keys, insert}
use nexus_chain.Consensus.Errors.{Hash}
use nexus_chain.Consensus.Validator.{ValidatorSet}
use nexus_chain.Consensus.Bft.Crypto.{Crypto, ValidatorKeys}
use nexus_chain.Consensus.Bft.Messages.{
  Proposal, PrepareVote, CommitVote, ViewChangeRequest, new_round, finalized, BftRoundState,
  default_state,
}
use nexus_chain.Consensus.Bft.Engine.{
  BftConsensus, on_commit, add_commit, vote_commit, add_prepare, on_prepare, vote_prepare,
  own_prepare, own_commit, advance_view, lock_on, new,
}
use nexus_chain.Consensus.Bft.Proposals.{propose, on_proposal, accept, signed_proposal}
use nexus_chain.Consensus.Bft.Views.{on_view_change, request_view_change}
use nexus_chain.Consensus.Bft.Calls.{
  Call, propose_call, proposal_call, prepare_call, commit_call, vote_prepare_call, vote_commit_call,
  view_change_call, request_call, advance_call, perform, run,
}
use nexus_chain.Consensus.Bft.Invariant.Effects.{
  Keeps, Recorded, IsPrepare, IsCommit, Turn, Step, Turn-Recorded,
}
use nexus_chain.Consensus.Bft.Invariant.Votes.{perform-Step}

-- No key has two votes of a kind, a round that waits for a proposal has no votes, and a finalized
-- round is never left standing.
pub record IsRound (s : BftRoundState) : Type 0 where
  pub prepares : Unique s.prepare_votes
  pub commits : Unique s.commit_votes
  pub not_finalized : s.phase ≢ finalized
  pub idle : s.phase ≡ new_round → (s.prepare_votes ≡ []) × (s.commit_votes ≡ [])

module _ (c : Crypto) where
  add_commit-IsRound :
      (b : BftConsensus c) (v : CommitVote) → IsRound b.state → IsRound (add_commit c b v).1.state
  unfolding add_commit advance_view
  add_commit-IsRound b v h = ground (arith, insert-Unique v.voter v b.state.commit_votes h.commits)

  on_commit-IsRound :
      (b : BftConsensus c) (v : CommitVote) → IsRound b.state → IsRound (on_commit c b v).1.state
  unfolding on_commit
  on_commit-IsRound b v h = ground (arith, add_commit-IsRound b v h)

  vote_commit-IsRound :
      (b : BftConsensus c) (x : Hash) → IsRound b.state → IsRound (vote_commit c b x).1.state
  unfolding vote_commit
  vote_commit-IsRound b x h = on_commit-IsRound b (own_commit c b x) h

  add_prepare-IsRound :
      (b : BftConsensus c) (v : PrepareVote) → IsRound b.state → IsRound (add_prepare c b v).1.state
  unfolding add_prepare
  add_prepare-IsRound b v h =
      let votes = insert-Unique v.voter v b.state.prepare_votes h.prepares in
      let voted = record (b.state) { prepare_votes = insert v.voter v b.state.prepare_votes } in
      ground (
        arith,
        vote_commit-IsRound (record b { state = lock_on c v.vertex_hash voted }) v.vertex_hash,
      )

  on_prepare-IsRound :
      (b : BftConsensus c) (v : PrepareVote) → IsRound b.state → IsRound (on_prepare c b v).1.state
  unfolding on_prepare
  on_prepare-IsRound b v h = ground (arith, add_prepare-IsRound b v h)

  vote_prepare-IsRound :
      (b : BftConsensus c) (x : Hash) → IsRound b.state → IsRound (vote_prepare c b x).1.state
  unfolding vote_prepare
  vote_prepare-IsRound b x h = on_prepare-IsRound b (own_prepare c b x) h

  accept-IsRound :
      (b : BftConsensus c) (p : Proposal) → IsRound b.state → IsRound (accept c b p).state
  accept-IsRound b p h = ground arith

  propose-IsRound :
      (b : BftConsensus c) (x : Hash) (ps : List Hash)
      → IsRound b.state
      → IsRound (propose c b x ps).1.state
  unfolding propose
  propose-IsRound b x ps h =
      let p = signed_proposal c b x ps in
      ground (arith, vote_prepare-IsRound (accept c b p) x (accept-IsRound b p h))

  on_view_change-IsRound :
      (b : BftConsensus c) (r : ViewChangeRequest)
      → IsRound b.state
      → IsRound (on_view_change c b r).1.state
  unfolding on_view_change
  on_view_change-IsRound b r h = ground arith

  perform-IsRound :
      (grants_write : ℕ → Bool) (b : BftConsensus c) (x : Call)
      → IsRound b.state
      → IsRound (perform c grants_write b x).state
  unfolding perform on_proposal advance_view request_view_change
  perform-IsRound g b (propose_call x ps) h = propose-IsRound b x ps h
  perform-IsRound g b (proposal_call p) h =
      ground (arith, vote_prepare-IsRound (accept c b p) p.vertex_hash (accept-IsRound b p h))
  perform-IsRound g b (prepare_call v) h = on_prepare-IsRound b v h
  perform-IsRound g b (commit_call v) h = on_commit-IsRound b v h
  perform-IsRound g b (vote_prepare_call x) h = vote_prepare-IsRound b x h
  perform-IsRound g b (vote_commit_call x) h = vote_commit-IsRound b x h
  perform-IsRound g b (view_change_call r) h = on_view_change-IsRound b r h
  perform-IsRound g b (request_call n) h = on_view_change-IsRound b _ h
  perform-IsRound g b advance_call h = ground arith

  run_from-IsRound :
      (grants_write : ℕ → Bool) (b : BftConsensus c) (xs : List Call)
      → IsRound b.state
      → IsRound (run c grants_write b xs).state
  unfolding run
  run_from-IsRound g b [] h = h
  run_from-IsRound g b (x ∷ xs) h =
      run_from-IsRound g (perform c g b x) xs (perform-IsRound g b x h)

default_state-IsRound : IsRound default_state
default_state-IsRound = record {
  prepares = tt;
  commits = tt;
  not_finalized = λ p. cc;
  idle = λ p. (refl, refl);
}

-- The engine has the set it was given, and every recorded vote is one of its validators'.
record IsVoted (c : Crypto) (set : ValidatorSet) (b : BftConsensus c) : Type 0 where
  pub same : b.validator_set ≡ set
  pub prepares : Recorded (IsPrepare c set) b.state.prepare_votes
  pub commits : Recorded (IsCommit c set) b.state.commit_votes

Step-IsVoted :
    (c : Crypto) (set : ValidatorSet) (b b' : BftConsensus c)
    → Step c b b'
    → IsVoted c set b
    → IsVoted c set b'
Step-IsVoted c set b b' h v = record {
  same = h.same_set ∙ v.same;
  prepares =
      Turn-Recorded (IsPrepare c set) b.state.prepare_votes b'.state.prepare_votes
        (subst (λ s. Turn (IsPrepare c s) b.state.prepare_votes b'.state.prepare_votes) v.same
          h.prepares)
        v.prepares;
  commits =
      Turn-Recorded (IsCommit c set) b.state.commit_votes b'.state.commit_votes
        (subst (λ s. Turn (IsCommit c s) b.state.commit_votes b'.state.commit_votes) v.same
          h.commits)
        v.commits;
}

run_from-IsVoted :
    (c : Crypto) (grants_write : ℕ → Bool) (set : ValidatorSet) (b : BftConsensus c)
    (xs : List Call)
    → IsVoted c set b
    → IsVoted c set (run c grants_write b xs)
unfolding run
run_from-IsVoted c g set b [] h = h
run_from-IsVoted c g set b (x ∷ xs) h =
    let b' = perform c g b x in
    run_from-IsVoted c g set b' xs (Step-IsVoted c set b b' (perform-Step c g b x) h)

-- From a new engine, after any calls with one validator set (`set_state`, for tests, is none): every
-- recorded vote stands under its voter, who is a validator of the set and has signed it, and no
-- voter has two votes of a kind; a round that waits for a proposal has no votes; the phase is never
-- `Finalized`. Whatever call follows, it replaces no recorded vote: each stays as it is, unless all
-- the votes of the kind are cleared.
pub run-IsRound :
    (c : Crypto) (grants_write : ℕ → Bool) (keys : ValidatorKeys c) (set : ValidatorSet)
    (calls : List Call)
    → let b = run c grants_write (new c keys set) calls in
      IsRound b.state
      × Recorded (IsPrepare c set) b.state.prepare_votes
      × Recorded (IsCommit c set) b.state.commit_votes
      × ((x : Call)
          → let s = (perform c grants_write b x).state in
            Keeps b.state.prepare_votes s.prepare_votes × Keeps b.state.commit_votes s.commit_votes)
run-IsRound c g keys set calls =
    let b = run c g (new c keys set) calls in
    let voted =
      run_from-IsVoted c g set (new c keys set) calls (record {
        same = refl;
        prepares = λ k v h. ground arith;
        commits = λ k v h. ground arith;
      }) in
    (
      run_from-IsRound c g (new c keys set) calls default_state-IsRound,
      voted.prepares,
      voted.commits,
      λ x. let h = perform-Step c g b x in (h.prepares.keeps, h.commits.keeps),
    )
