-- ===== src/Consensus/Bft/Engine.antt =====
-- `BftConsensus` of bft.rs: the handlers of votes, proposals and view changes. A handler returns
-- its result and the engine, also on an error, since what was written stays written. Each handler
-- is one step; the locks matter only in `on_proposal`, where they are modelled. The field
-- `message_tx` is stored and never read, and is left out.
use nexus_chain.Base.{
  ℕ, not, Option, none, some, List, [], ◌∷◌, ◌++◌, map, ok, err, if◌then◌else◌, add64, sum64,
  filter_map, elem, to_le_bytes,
}
use nexus_chain.Base.Map.{Map, contains_key, insert, values}
use nexus_chain.Consensus.Errors.{
  Address, Hash, ConsensusResult, invalid_signature, unknown_validator, duplicate_vote,
}
use nexus_chain.Consensus.Validator.{ValidatorSet, get, has_supermajority}
use nexus_chain.Consensus.Bft.Crypto.{Crypto, ValidatorKeys, as_bytes, sign_hash, verify_ecdsa}
use nexus_chain.Consensus.Bft.Messages.{
  PrepareVote, CommitVote, ViewChangeRequest, prepare_hash, commit_hash, new_round, commit,
  finalized, is_prepare, is_commit, BftRoundState, default_state,
}

-- The stake behind a list of voters: those that the set does not know count for nothing.
unfoldable pub voted_stake : ValidatorSet → List Address → ℕ
voted_stake s voters = sum64 (map (λ v. v.stake) (filter_map (get s) voters))

abbrev pub prepare_voters : Map PrepareVote → List Address
prepare_voters votes = map (λ v. v.voter) (values votes)

abbrev pub commit_voters : Map CommitVote → List Address
commit_voters votes = map (λ v. v.voter) (values votes)

-- A call that returns, or that waits for ever for a lock.
pub data Outcome (A : Type 0) : Type 0 where
  returns : A → Outcome A
  blocks : Outcome A

module _ (c : Crypto) where
  pub record BftConsensus : Type 0 where
    pub keys : ValidatorKeys c
    pub validator_set : ValidatorSet
    pub state : BftRoundState
    pub finalized_set : List Hash
    pub view_change_votes : Map (List ViewChangeRequest)

  abbrev pub new : ValidatorKeys c → ValidatorSet → BftConsensus
  new keys validator_set = record {
    keys = keys;
    validator_set = validator_set;
    state = default_state;
    finalized_set = [];
    view_change_votes = [];
  }

  abbrev pub set_state : BftConsensus → BftRoundState → BftConsensus
  set_state b state = record b { state = state }

  -- The writes that `advance_view` and a view change share.
  abbrev pub enter_view : ℕ → BftRoundState → BftRoundState
  enter_view view s = record s {
    view = view;
    phase = new_round;
    proposal = none;
    prepare_votes = [];
    commit_votes = [];
  }

  unfoldable pub advance_view : BftConsensus → BftConsensus
  advance_view b = record b { state = enter_view (add64 b.state.view 1) b.state }

  -- `finalized.insert(hash)` on a hash set.
  abbrev pub insert_finalized : Hash → List Hash → List Hash
  insert_finalized h hs = if elem h hs then hs else h ∷ hs

  -- `on_commit` after the signature is checked.
  unfoldable pub add_commit :
      BftConsensus → CommitVote → ConsensusResult (Option Hash) × BftConsensus
  add_commit b vote =
      if not (is_commit b.state.phase)
      then (ok none, b)
      else if contains_key vote.voter b.state.commit_votes
      then (err duplicate_vote, b)
      else let votes = insert vote.voter vote b.state.commit_votes in
        if has_supermajority b.validator_set (voted_stake b.validator_set (commit_voters votes))
        then (
          ok (some vote.vertex_hash),
          advance_view (record b {
            state = record (b.state) { commit_votes = votes; phase = finalized };
            finalized_set = insert_finalized vote.vertex_hash b.finalized_set;
          }),
        )
        else (ok none, record b { state = record (b.state) { commit_votes = votes } })

  unfoldable pub on_commit :
      BftConsensus → CommitVote → ConsensusResult (Option Hash) × BftConsensus
  on_commit b vote = elim (get b.validator_set vote.voter) [
    | none ↦ (err (unknown_validator vote.voter), b)
    | some v ↦
        if verify_ecdsa c v.pubkey (as_bytes (commit_hash c vote)) vote.signature
        then add_commit b vote
        else (err invalid_signature, b)
  ]

  unfoldable pub own_commit : BftConsensus → Hash → CommitVote
  own_commit b hash = record {
    voter = b.keys.address;
    view = b.state.view;
    vertex_hash = hash;
    signature =
        sign_hash c b.keys
          (c.keccak256 ((0x02 ∷ []) ++ (to_le_bytes 8 b.state.view ++ as_bytes hash)));
  }

  abbrev discard : ConsensusResult (Option Hash) → ConsensusResult Unit
  discard (ok _) = ok tt
  discard (err e) = err e

  unfoldable pub vote_commit : BftConsensus → Hash → ConsensusResult Unit × BftConsensus
  vote_commit b hash = let (r, b') = on_commit b (own_commit b hash) in (discard r, b')

  -- The lock on the vertex of the vote that completed the supermajority.
  abbrev pub lock_on : Hash → BftRoundState → BftRoundState
  lock_on hash s = record s { locked_vertex = some hash; locked_view = s.view; phase = commit }

  -- `on_prepare` after the signature is checked.
  unfoldable pub add_prepare : BftConsensus → PrepareVote → ConsensusResult Unit × BftConsensus
  add_prepare b vote =
      if not (is_prepare b.state.phase)
      then (ok tt, b)
      else if contains_key vote.voter b.state.prepare_votes
      then (err duplicate_vote, b)
      else let votes = insert vote.voter vote b.state.prepare_votes in
        let s = record (b.state) { prepare_votes = votes } in
        if has_supermajority b.validator_set (voted_stake b.validator_set (prepare_voters votes))
        then vote_commit (record b { state = lock_on vote.vertex_hash s }) vote.vertex_hash
        else (ok tt, record b { state = s })

  unfoldable pub on_prepare : BftConsensus → PrepareVote → ConsensusResult Unit × BftConsensus
  on_prepare b vote = elim (get b.validator_set vote.voter) [
    | none ↦ (err (unknown_validator vote.voter), b)
    | some v ↦
        if verify_ecdsa c v.pubkey (as_bytes (prepare_hash c vote)) vote.signature
        then add_prepare b vote
        else (err invalid_signature, b)
  ]

  unfoldable pub own_prepare : BftConsensus → Hash → PrepareVote
  own_prepare b hash = record {
    voter = b.keys.address;
    view = b.state.view;
    vertex_hash = hash;
    signature =
        sign_hash c b.keys
          (c.keccak256 ((0x01 ∷ []) ++ (to_le_bytes 8 b.state.view ++ as_bytes hash)));
  }

  unfoldable pub vote_prepare : BftConsensus → Hash → ConsensusResult Unit × BftConsensus
  vote_prepare b hash = on_prepare b (own_prepare b hash)
