-- ===== src/Consensus/Bft/Invariant/Effects.antt =====
-- What may become of the recorded votes of `BftConsensus` in one call.
use nexus_chain.Base.{
  ℕ, true, false, ◌==◌, ◌≡◌, refl, ◌∙◌, some, [], arith, inl, inr, ◌⊎◌, Bool-cases,
}
use mathlib.Core.Path.{subst}
use nexus_chain.Base.Map.{Map, lookup, insert, contains_key, lookup-insert}
use nexus_chain.Consensus.Validator.{Validator, ValidatorSet, get}
use nexus_chain.Consensus.Bft.Crypto.{Crypto, as_bytes, verify_ecdsa}
use nexus_chain.Consensus.Bft.Messages.{PrepareVote, CommitVote, prepare_hash, commit_hash}
use nexus_chain.Consensus.Bft.Engine.{BftConsensus}

module _ {V : Type 0} where
  -- A recorded vote stays as it is, unless all are cleared.
  abbrev pub Keeps : Map V → Map V → Type 0
  Keeps m m' = (k : ℕ) (v : V) → lookup k m ≡ some v → (lookup k m' ≡ some v) ⊎ (m' ≡ [])

  -- A vote that is recorded afterwards was so before, or is as `P` says.
  abbrev pub Adds : (ℕ → V → Type 0) → Map V → Map V → Type 0
  Adds P m m' = (k : ℕ) (v : V) → lookup k m' ≡ some v → (lookup k m ≡ some v) ⊎ P k v

  Keeps-insert :
      (k : ℕ) (v : V) (m m' : Map V)
      → contains_key k m ≡ false
      → Keeps (insert k v m) m'
      → Keeps m m'
  Keeps-insert k v m m' new keeps j w here = keeps j w (lookup-insert j k v m ∙ ground arith)

  Adds-insert :
      (P : ℕ → V → Type 0) (k : ℕ) (v : V) (m m' : Map V)
      → P k v
      → Adds P (insert k v m) m'
      → Adds P m m'
  Adds-insert P k v m m' good adds j w here = elim (adds j w here) [
    | inl before ↦ elim (Bool-cases (j == k)) [
      | inl same ↦
          let key : k ≡ j = ground arith in
          let vote : v ≡ w = ground (arith, lookup-insert j k v m) in
          inr (subst (λ x. P x w) key (subst (P k) vote good))
      | inr other ↦ inl (ground (arith, lookup-insert j k v m))
    ]
    | inr fresh ↦ inr fresh
  ]

-- What may become of the votes `m`: none is replaced, and what is added is as `P` says.
pub record Turn {V : Type 0} (P : ℕ → V → Type 0) (m m' : Map V) : Type 0 where
  pub keeps : Keeps m m'
  pub adds : Adds P m m'

module _ {V : Type 0} {P : ℕ → V → Type 0} where
  pub Turn-refl : (m : Map V) → Turn P m m
  Turn-refl m = record { keeps = λ k v h. inl h; adds = λ k v h. inl h }

  pub Turn-clear : (m : Map V) → Turn P m []
  Turn-clear m = record { keeps = λ k v h. inr refl; adds = λ k v h. absurd (ground arith) }

  pub Turn-insert :
      (k : ℕ) (v : V) (m m' : Map V)
      → contains_key k m ≡ false
      → P k v
      → Turn P (insert k v m) m'
      → Turn P m m'
  Turn-insert k v m m' new good h = record {
    keeps = Keeps-insert k v m m' new h.keeps;
    adds = Adds-insert P k v m m' good h.adds;
  }

module _ (c : Crypto) (set : ValidatorSet) where
  -- The vote is recorded under its voter, who is a known validator and has signed it.
  abbrev pub IsPrepare : ℕ → PrepareVote → Type 0
  IsPrepare k v =
      (k ≡ v.voter)
      × (w : Validator) × (get set v.voter ≡ some w)
      × (verify_ecdsa c w.pubkey (as_bytes (prepare_hash c v)) v.signature ≡ true)

  abbrev pub IsCommit : ℕ → CommitVote → Type 0
  IsCommit k v =
      (k ≡ v.voter)
      × (w : Validator) × (get set v.voter ≡ some w)
      × (verify_ecdsa c w.pubkey (as_bytes (commit_hash c v)) v.signature ≡ true)

-- What every call does to the votes: none is replaced, and only signed votes are added.
pub record Step (c : Crypto) (b b' : BftConsensus c) : Type 0 where
  pub same_set : b'.validator_set ≡ b.validator_set
  pub prepares : Turn (IsPrepare c b.validator_set) b.state.prepare_votes b'.state.prepare_votes
  pub commits : Turn (IsCommit c b.validator_set) b.state.commit_votes b'.state.commit_votes

-- Every recorded vote is as `P` says.
abbrev pub Recorded : {V : Type 0} → (ℕ → V → Type 0) → Map V → Type 0
Recorded {V} P m = (k : ℕ) (v : V) → lookup k m ≡ some v → P k v

pub Turn-Recorded :
    {V : Type 0} (P : ℕ → V → Type 0) (m m' : Map V) → Turn P m m' → Recorded P m → Recorded P m'
Turn-Recorded P m m' h all k v here = elim (h.adds k v here) [
  | inl before ↦ all k v before
  | inr fresh ↦ fresh
]
