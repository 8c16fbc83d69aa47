-- ===== src/Consensus/Bft/Tests.antt =====
-- Four validators with a toy signature scheme, and runs of the engine of bft.rs on them.
use nexus_chain.Base.{
  ℕ, ◌+◌, ◌%◌, ◌<◌, ◌≡◌, ◌≢◌, ◌↔◌, refl, Bool, true, false, none, some, List, [], ◌∷◌, map, arith,
  ok, err, sum, ◌==◌, u128_mod, to_le_bytes, to_be_bytes,
}
use mathlib.Core.List.{flat_map}
use nexus_chain.Consensus.Errors.{Hash, ConsensusError}
use nexus_chain.Consensus.Validator.{
  Validator, new_validator, ValidatorSet, active_validators, active_stake, has_supermajority,
}
use nexus_chain.Consensus.Validator.Stake.{stake_of}
use nexus_chain.Consensus.Validator.Sampling.{IsChosen, pick}
use nexus_chain.Consensus.Bft.Crypto.{Crypto, ValidatorKeys, as_bytes, sign_hash, verify_ecdsa}
use nexus_chain.Consensus.Bft.Messages.{
  Proposal, PrepareVote, CommitVote, ViewChangeRequest, prepare_bytes, commit_bytes, proposal_bytes,
  proposal_hash, commit_hash, new_round, commit, default_state,
}
use nexus_chain.Consensus.Bft.Engine.{
  BftConsensus, new, on_commit, add_commit, own_commit, vote_prepare, voted_stake, returns, blocks,
}
use nexus_chain.Consensus.Bft.Leader.{weighted_leader, leader_rand}
use nexus_chain.Consensus.Bft.Proposals.{
  signed_proposal, accept, on_proposal, check_proposal, check_proposer,
}
use nexus_chain.Consensus.Bft.Views.{is_finalized, get_finality_certificate}
use nexus_chain.Consensus.Bft.Calls.{
  Call, commit_call, advance_call, vote_prepare_call, perform, run,
}
use nexus_chain.Consensus.Bft.Finality.{
  Completes, on_commit_reports, on_commit_advances, relabel, add_commit-relabel,
  run-keeps_finalized,
}
use nexus_chain.Consensus.Bft.Invariant.{IsRound, run-IsRound}
use nexus_chain.Consensus.Bft.Invariant.Effects.{Keeps, Recorded, IsPrepare, IsCommit}
use nexus_chain.Consensus.Bft.Progress.{FitsRound, IsSigned, on_proposal_blocks}
use nexus_chain.Consensus.Bft.ViewChange.{replay, view_change_replay}
use nexus_chain.Consensus.Bft.Signing.{vote_bytes-injective}
use nexus_chain.Consensus.Bft.Election.{weighted_leader_lem}

-- A signature is the sum of the key and of the message.
abbrev toy : Crypto
toy = record {
  VerifyingKey = List ℕ;
  EcdsaSig = List ℕ;
  SigningKey = List ℕ;
  keccak256 = λ m. sum m;
  from_sec1_bytes = λ k. some k;
  sig_from_bytes = λ s. some s;
  verify = λ k m s. sum k + sum m == sum s;
  sign_bytes = λ k m. (sum k + sum m) ∷ [];
}

abbrev keys_of : ℕ → ValidatorKeys toy
keys_of a = record { signing_key = a ∷ []; address = a }

abbrev validator_of : ℕ → Validator
validator_of a = new_validator a (a ∷ []) 10

abbrev four : ValidatorSet
four = record {
  epoch = 0;
  validators =
      (1, validator_of 1) ∷ (2, validator_of 2) ∷ (3, validator_of 3) ∷ (4, validator_of 4) ∷ [];
  total_stake = 40;
  min_stake = 10;
  max_validators = 100;
}

abbrev node : BftConsensus toy
node = new toy (keys_of 3) four

-- The node in the commit phase, with the votes of 1 and 2 for different vertices.
abbrev vote_of : ℕ → Hash → CommitVote
vote_of a h = record { voter = a; view = 0; vertex_hash = h; signature = [] }

abbrev committing : BftConsensus toy
committing = record node {
  state = record default_state {
    phase = commit;
    commit_votes = (2, vote_of 2 98) ∷ (1, vote_of 1 97) ∷ [];
  };
}

abbrev last_vote : CommitVote
last_vote = own_commit toy committing 99

reported : (on_commit toy committing last_vote).0 ≡ ok (some 99)
unfolding on_commit add_commit own_commit voted_stake has_supermajority active_stake
    active_validators verify_ecdsa sign_hash commit_hash commit_bytes as_bytes to_be_bytes
    to_le_bytes
reported = refl

on_commit_reports_example :
    ((on_commit toy committing last_vote).0 ≡ ok (some 99))
    ↔ (Completes toy committing last_vote × (99 ≡ last_vote.vertex_hash))
on_commit_reports_example = on_commit_reports toy committing last_vote 99

on_commit_advances_example :
    let b' = (on_commit toy committing last_vote).1 in
    (is_finalized toy b' 99 ≡ true)
    × (b'.state.view ≡ 1)
    × (b'.state.phase ≡ new_round)
    × (b'.state.commit_votes ≡ [])
    × (get_finality_certificate toy b' 99 ≡ none)
on_commit_advances_example = on_commit_advances toy committing last_vote 99 reported

abbrev for_7 : CommitVote → CommitVote
for_7 v = record v { vertex_hash = 7 }

add_commit-relabel_example :
    let b' = record committing {
      state = record (committing.state) {
        commit_votes = relabel for_7 committing.state.commit_votes;
      };
    } in
    ((add_commit toy b' last_vote).0 ≡ (add_commit toy committing last_vote).0)
    × ((add_commit toy b' last_vote).1.finalized_set
        ≡ (add_commit toy committing last_vote).1.finalized_set)
add_commit-relabel_example = add_commit-relabel for_7 (λ v. refl) toy committing last_vote

abbrev calls : List Call
calls = vote_prepare_call 5 ∷ commit_call last_vote ∷ advance_call ∷ []

abbrev never : ℕ → Bool
never n = n == 0

run-keeps_finalized_example :
    is_finalized toy (run toy never (record node { finalized_set = 42 ∷ [] }) calls) 42 ≡ true
run-keeps_finalized_example =
    run-keeps_finalized toy 42 never (record node { finalized_set = 42 ∷ [] }) calls refl

-- The node after these calls.
abbrev later : BftConsensus toy
later = run toy never (new toy (keys_of 3) four) calls

run-IsRound_example :
    IsRound later.state
    × Recorded (IsPrepare toy four) later.state.prepare_votes
    × Recorded (IsCommit toy four) later.state.commit_votes
    × ((x : Call)
        → let s = (perform toy never later x).state in
          Keeps later.state.prepare_votes s.prepare_votes
          × Keeps later.state.commit_votes s.commit_votes)
run-IsRound_example = run-IsRound toy never (keys_of 3) four calls

abbrev proposal : Proposal
proposal = signed_proposal toy node 50 []

on_proposal_blocks_example :
    ((on_proposal toy never node proposal ≡ blocks)
      ↔ ((never 1 ≡ false) × FitsRound node.state proposal × IsSigned toy node proposal))
    × (never 1 ≡ true
        → FitsRound node.state proposal
        → IsSigned toy node proposal
        → on_proposal toy never node proposal
          ≡ returns (vote_prepare toy (accept toy node proposal) proposal.vertex_hash))
    × (¬ (FitsRound node.state proposal × IsSigned toy node proposal)
        → (e : ConsensusError) × (on_proposal toy never node proposal ≡ returns (err e, node)))
on_proposal_blocks_example = on_proposal_blocks toy never node proposal

proposal_waits : on_proposal toy never node proposal ≡ blocks
unfolding on_proposal check_proposal check_proposer signed_proposal verify_ecdsa sign_hash
    proposal_hash proposal_bytes as_bytes to_be_bytes to_le_bytes flat_map
proposal_waits = refl

abbrev request : ViewChangeRequest
request = record { requester = 2; new_view = 1000; last_prepared = none; signature = [] }

view_change_replay_example :
    let b' = replay toy request 3 committing in
    (b'.state.view ≡ 1000)
    × (b'.state.phase ≡ new_round)
    × (b'.state.proposal ≡ none)
    × (b'.state.prepare_votes ≡ [])
    × (b'.state.commit_votes ≡ [])
unfolding active_stake active_validators
view_change_replay_example =
    view_change_replay toy request 2 committing (validator_of 2) refl refl (omega arith)
      (omega arith)

abbrev prepare_for : Hash → PrepareVote
prepare_for h = record { voter = 1; view = 6; vertex_hash = h; signature = [] }

vote_bytes-injective_example :
    let v = prepare_for 8 in
    let w = prepare_for 9 in
    let x = vote_of 1 8 in
    let y = vote_of 2 8 in
    (prepare_bytes v ≡ prepare_bytes w → (v.view ≡ w.view) × (v.vertex_hash ≡ w.vertex_hash))
    × (commit_bytes x ≡ commit_bytes y → (x.view ≡ y.view) × (x.vertex_hash ≡ y.vertex_hash))
    × (prepare_bytes v ≢ commit_bytes x)
vote_bytes-injective_example =
    vote_bytes-injective (prepare_for 8) (prepare_for 9) (vote_of 1 8) (vote_of 2 8)
      (omega arith, omega arith, omega arith, omega arith) (omega arith, omega arith)
      (omega arith, omega arith)

own_verifies :
    (m : List ℕ)
    → verify_ecdsa toy (validator_of 3).pubkey m (toy.sign_bytes (keys_of 3).signing_key m) ≡ true
unfolding verify_ecdsa
own_verifies m = ground arith

weighted_leader_lem_example :
    let active = active_validators four in
    let total = sum (map stake_of active) in
    (total ≡ 0 → weighted_leader toy node ≡ none)
    × (0 < total
        → total < u128_mod
        → (v : Validator) × (weighted_leader toy node ≡ some v.address)
          × IsChosen 0 (leader_rand toy node % total) active v)
weighted_leader_lem_example = weighted_leader_lem toy node

first_leader : weighted_leader toy node ≡ some 1
unfolding weighted_leader active_validators pick to_le_bytes
first_leader = refl
