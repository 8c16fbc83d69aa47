-- ===== src/Consensus/Bft/Calls.antt =====
-- The public methods of `BftConsensus` as one type of calls, and a run of calls. `set_state` is for
-- test harnesses and is no call; a call that blocks changes nothing.
use nexus_chain.Base.{ℕ, Bool, List, [], ◌∷◌}
use nexus_chain.Consensus.Errors.{Hash}
use nexus_chain.Consensus.Bft.Crypto.{Crypto}
use nexus_chain.Consensus.Bft.Messages.{Proposal, PrepareVote, CommitVote, ViewChangeRequest}
use nexus_chain.Consensus.Bft.Engine.{
  BftConsensus, returns, blocks, on_commit, vote_commit, on_prepare, vote_prepare, advance_view,
}
use nexus_chain.Consensus.Bft.Proposals.{propose, on_proposal}
use nexus_chain.Consensus.Bft.Views.{on_view_change, request_view_change}

pub data Call : Type 0 where
  propose_call : Hash → List Hash → Call
  proposal_call : Proposal → Call
  prepare_call : PrepareVote → Call
  commit_call : CommitVote → Call
  vote_prepare_call : Hash → Call
  vote_commit_call : Hash → Call
  view_change_call : ViewChangeRequest → Call
  request_call : ℕ → Call
  advance_call : Call

module _ (c : Crypto) (grants_write : ℕ → Bool) where
  unfoldable pub perform : BftConsensus c → Call → BftConsensus c
  perform b (propose_call h ps) = (propose c b h ps).1
  perform b (proposal_call p) = elim (on_proposal c grants_write b p) [
    | returns out ↦ out.1
    | blocks ↦ b
  ]
  perform b (prepare_call v) = (on_prepare c b v).1
  perform b (commit_call v) = (on_commit c b v).1
  perform b (vote_prepare_call h) = (vote_prepare c b h).1
  perform b (vote_commit_call h) = (vote_commit c b h).1
  perform b (view_change_call r) = (on_view_change c b r).1
  perform b (request_call n) = (request_view_change c b n).1
  perform b advance_call = advance_view c b

  unfoldable pub run : BftConsensus c → List Call → BftConsensus c
  run b [] = b
  run b (x ∷ xs) = run (perform b x) xs
