-- ===== src/Consensus/Bft/Progress.antt =====
-- `on_proposal`: which proposals it refuses, and on which it waits for ever.
use nexus_chain.Base.{
  ℕ, ◌<◌, Bool, true, false, Bool-cases, inl, inr, ◌⊎◌, ◌≡◌, ◌↔◌, ◌==◌, some, Option-cases, ok, err,
  Result-cases, arith,
}
use nexus_chain.Consensus.Errors.{Hash, ConsensusError}
use nexus_chain.Consensus.Validator.{Validator, get}
use nexus_chain.Consensus.Bft.Crypto.{Crypto, as_bytes, verify_ecdsa}
use nexus_chain.Consensus.Bft.Messages.{Proposal, proposal_hash, BftRoundState}
use nexus_chain.Consensus.Bft.Engine.{BftConsensus, returns, blocks, vote_prepare}
use nexus_chain.Consensus.Bft.Proposals.{check_proposal, check_proposer, accept, on_proposal}

-- The proposal is for the view of the round, and a locked round takes only the locked vertex or a
-- view above that of the lock.
abbrev pub FitsRound : BftRoundState → Proposal → Type 0
FitsRound s p =
    (p.view ≡ s.view)
    × ((locked : Hash)
        → s.locked_vertex ≡ some locked
        → (p.vertex_hash ≡ locked) ⊎ (s.locked_view < p.view))

-- A validator that the set knows has signed the proposal.
abbrev pub IsSigned : (c : Crypto) → BftConsensus c → Proposal → Type 0
IsSigned c b p =
    (v : Validator) × (get b.validator_set p.proposer ≡ some v)
    × (verify_ecdsa c v.pubkey (as_bytes (proposal_hash c p)) p.signature ≡ true)

check_proposal_iff :
    (s : BftRoundState) (p : Proposal) → (check_proposal s p ≡ ok tt) ↔ FitsRound s p
unfolding check_proposal
check_proposal_iff s p = (
  λ h. (
    ground arith,
    λ locked e. elim (Bool-cases (p.vertex_hash == locked)) [
      | inl same ↦ inl (ground arith)
      | inr other ↦ inr (ground arith)
    ],
  ),
  λ (e, f). elim (Option-cases s.locked_vertex) [
    | inl unlocked ↦ ground arith
    | inr (locked, at) ↦ elim (f locked at) [ inl same ↦ ground arith | inr later ↦ ground arith ]
  ],
)

check_proposer_iff :
    (c : Crypto) (b : BftConsensus c) (p : Proposal)
    → (check_proposer c b p ≡ ok tt) ↔ IsSigned c b p
unfolding check_proposer
check_proposer_iff c b p = (
  λ h. elim (Option-cases (get b.validator_set p.proposer)) [
    | inl unknown ↦ absurd (ground arith)
    | inr (v, known) ↦ (v, known, ground arith)
  ],
  λ (v, e, f). ground arith,
)

module _ (c : Crypto) (grants_write : ℕ → Bool) (b : BftConsensus c) (p : Proposal) where
  -- `on_proposal` waits for ever exactly when a write lock is not granted to a thread that holds a
  -- read guard of it and the proposal is of the round's view, respects the lock of the round and is
  -- signed by a known validator. Were the lock granted, such a proposal would be accepted and voted
  -- for. On any other proposal it returns an error and changes nothing.
  pub on_proposal_blocks :
      ((on_proposal c grants_write b p ≡ blocks)
        ↔ ((grants_write 1 ≡ false) × FitsRound b.state p × IsSigned c b p))
      × (grants_write 1 ≡ true
          → FitsRound b.state p
          → IsSigned c b p
          → on_proposal c grants_write b p ≡ returns (vote_prepare c (accept c b p) p.vertex_hash))
      × (¬ (FitsRound b.state p × IsSigned c b p)
          → (e : ConsensusError) × (on_proposal c grants_write b p ≡ returns (err e, b)))
  unfolding on_proposal
  on_proposal_blocks =
      let fits = check_proposal_iff b.state p in
      let signed = check_proposer_iff c b p in
      (
        (
          λ h. (ground arith, fits.0 (ground arith), signed.0 (ground arith)),
          λ (g, f, s). ground (arith, fits.1 f, signed.1 s),
        ),
        λ g f s. ground (arith, fits.1 f, signed.1 s),
        λ no. elim (Result-cases (check_proposal b.state p)) [
          | inl (e, refused) ↦ (e, ground arith)
          | inr (_, passed) ↦ elim (Result-cases (check_proposer c b p)) [
            | inl (e, refused) ↦ (e, ground arith)
            | inr (_, known) ↦ absurd (no (fits.0 (ground arith), signed.0 (ground arith)))
          ]
        ],
      )
