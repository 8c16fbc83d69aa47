-- ===== src/Consensus/Bft/Proposals.antt =====
-- Proposals in bft.rs: `propose` and `on_proposal`.
use nexus_chain.Base.{ℕ, Bool, not, ◌&&◌, none, some, List, [], ok, err, if◌then◌else◌, ◌==◌, leb}
use nexus_chain.Consensus.Errors.{
  Hash, ConsensusResult, view_mismatch, conflicts_with_locked, invalid_signature, unknown_validator,
  invalid_proposal, not_leader,
}
use nexus_chain.Consensus.Validator.{get}
use nexus_chain.Consensus.Bft.Crypto.{Crypto, as_bytes, sign_hash, verify_ecdsa}
use nexus_chain.Consensus.Bft.Messages.{Proposal, proposal_hash, prepare, BftRoundState}
use nexus_chain.Consensus.Bft.Engine.{BftConsensus, Outcome, returns, blocks, vote_prepare}
use nexus_chain.Consensus.Bft.Leader.{is_leader}

-- The part of `on_proposal` that reads the round state.
unfoldable pub check_proposal : BftRoundState → Proposal → ConsensusResult Unit
check_proposal s p =
    if not (p.view == s.view)
    then err (invalid_proposal (view_mismatch s.view p.view))
    else elim s.locked_vertex [
      | none ↦ ok tt
      | some locked ↦
          if not (p.vertex_hash == locked) && leb p.view s.locked_view
          then err (invalid_proposal conflicts_with_locked)
          else ok tt
    ]

module _ (c : Crypto) where
  -- The writes of an accepted proposal.
  abbrev pub accept : BftConsensus c → Proposal → BftConsensus c
  accept b p = record b { state = record (b.state) { proposal = some p; phase = prepare } }

  unfoldable pub signed_proposal : BftConsensus c → Hash → List Hash → Proposal
  signed_proposal b vertex_hash parents =
      let unsigned : Proposal = record {
        proposer = b.keys.address;
        view = b.state.view;
        epoch = b.state.epoch;
        vertex_hash = vertex_hash;
        parents = parents;
        signature = [];
      } in
      record unsigned { signature = sign_hash c b.keys (proposal_hash c unsigned) }

  unfoldable pub propose :
      BftConsensus c → Hash → List Hash → ConsensusResult Proposal × BftConsensus c
  propose b vertex_hash parents =
      if not (is_leader c b)
      then (err not_leader, b)
      else let p = signed_proposal b vertex_hash parents in
        let (r, b') = vote_prepare c (accept b p) vertex_hash in
        elim r [ ok _ ↦ (ok p, b') | err e ↦ (err e, b') ]

  -- The check of the proposer and its signature.
  unfoldable pub check_proposer : BftConsensus c → Proposal → ConsensusResult Unit
  check_proposer b p = elim (get b.validator_set p.proposer) [
    | none ↦ err (unknown_validator p.proposer)
    | some v ↦
        if verify_ecdsa c v.pubkey (as_bytes (proposal_hash c p)) p.signature
        then ok tt
        else err invalid_signature
  ]

  -- `grants_write n`: whether `RwLock::write` of parking_lot returns to a thread that holds `n` read
  -- guards of that lock. `on_proposal` takes the guard `state` to read, and takes the write lock of
  -- the same state while that guard is alive (it is shadowed, not dropped).
  unfoldable pub on_proposal :
      (ℕ → Bool) → BftConsensus c → Proposal → Outcome (ConsensusResult Unit × BftConsensus c)
  on_proposal grants_write b p = elim (check_proposal b.state p) [
    | err e ↦ returns (err e, b)
    | ok _ ↦ elim (check_proposer b p) [
      | err e ↦ returns (err e, b)
      | ok _ ↦
          if grants_write 1 then returns (vote_prepare c (accept b p) p.vertex_hash) else blocks
    ]
  ]
