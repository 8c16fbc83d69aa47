-- ===== src/Consensus/Bft/Messages.antt =====
-- The messages of bft.rs and the hashes that are signed, and the state of a round.
use nexus_chain.Base.{ℕ, Option, none, List, [], ◌∷◌, ◌++◌, Bool, true, false, to_le_bytes}
use nexus_chain.Base.Map.{Map}
use mathlib.Core.List.{flat_map}
use nexus_chain.Consensus.Errors.{Address, Hash}
use nexus_chain.Consensus.Bft.Crypto.{Crypto, as_bytes}

pub record Proposal : Type 0 where
  pub proposer : Address
  pub view : ℕ
  pub epoch : ℕ
  pub vertex_hash : Hash
  pub parents : List Hash
  pub signature : List ℕ

pub record PrepareVote : Type 0 where
  pub voter : Address
  pub view : ℕ
  pub vertex_hash : Hash
  pub signature : List ℕ

pub record CommitVote : Type 0 where
  pub voter : Address
  pub view : ℕ
  pub vertex_hash : Hash
  pub signature : List ℕ

pub record ViewChangeRequest : Type 0 where
  pub requester : Address
  pub new_view : ℕ
  pub last_prepared : Option Hash
  pub signature : List ℕ

-- What `Proposal::signing_hash`, `PrepareVote::signing_hash` and `CommitVote::signing_hash` hash.
unfoldable pub proposal_bytes : Proposal → List ℕ
proposal_bytes p =
    to_le_bytes 8 p.view
    ++ (to_le_bytes 8 p.epoch ++ (as_bytes p.vertex_hash ++ flat_map as_bytes p.parents))

unfoldable pub prepare_bytes : PrepareVote → List ℕ
prepare_bytes v = 0x01 ∷ (to_le_bytes 8 v.view ++ as_bytes v.vertex_hash)

unfoldable pub commit_bytes : CommitVote → List ℕ
commit_bytes v = 0x02 ∷ (to_le_bytes 8 v.view ++ as_bytes v.vertex_hash)

module _ (c : Crypto) where
  open c use {keccak256}

  unfoldable pub proposal_hash : Proposal → Hash
  proposal_hash p = keccak256 (proposal_bytes p)

  unfoldable pub prepare_hash : PrepareVote → Hash
  prepare_hash v = keccak256 (prepare_bytes v)

  unfoldable pub commit_hash : CommitVote → Hash
  commit_hash v = keccak256 (commit_bytes v)

pub data BftPhase : Type 0 where
  new_round prepare commit finalized : BftPhase

abbrev pub is_prepare : BftPhase → Bool
is_prepare prepare = true
is_prepare _ = false

abbrev pub is_commit : BftPhase → Bool
is_commit commit = true
is_commit _ = false

pub record BftRoundState : Type 0 where
  pub view : ℕ
  pub epoch : ℕ
  pub phase : BftPhase
  pub proposal : Option Proposal
  pub prepare_votes : Map PrepareVote
  pub commit_votes : Map CommitVote
  pub locked_vertex : Option Hash
  pub locked_view : ℕ

abbrev pub default_state : BftRoundState
default_state = record {
  view = 0;
  epoch = 0;
  phase = new_round;
  proposal = none;
  prepare_votes = [];
  commit_votes = [];
  locked_vertex = none;
  locked_view = 0;
}
