-- ===== src/Dag/Finality/Heights.antt =====
-- Runs of calls on the gadget of finality.rs and the graph that it finalizes.
use nexus_chain.Base.{
  ℕ, ◌≤◌, ◌<◌, ◌≡◌, refl, sym, List, [], ◌∷◌, ◌++◌, Option, none, some, Result, ok, err, ◌⊎◌, inl,
  inr, arith, ltb, Bool-cases, Result-cases,
}
use mathlib.Core.Path.{subst}
use nexus_chain.Primitives.Errors.{NexusError, proof_target_not_found}
use nexus_chain.Primitives.Signature.{Secp}
use nexus_chain.Dag.Graph.{Dag}
use nexus_chain.Dag.Graph.Queries.{set_finalized_height}
use nexus_chain.Dag.Finality.{
  FinalityConfig, ValidatorInfo, FinalityVote, FinalityProof, FinalityGadget, verify, add_vote,
  contains_vertex, apply_proof, update_validator_set, new_gadget,
}
use nexus_chain.Dag.Finality.Proofs.{IsGadget, Added, add_vote-Added}

-- The proofs rise strictly in height, from above `low` up to `top`.
abbrev pub Rising : ℕ → List FinalityProof → ℕ → Type 0
Rising low [] top = low ≤ top
Rising low (p ∷ ps) top = (low < p.target_height) × Rising p.target_height ps top

Rising-append :
    (low : ℕ) (ps : List FinalityProof) (top : ℕ) (p : FinalityProof)
    → Rising low ps top
    → top < p.target_height
    → Rising low (ps ++ (p ∷ [])) p.target_height
Rising-append low [] top p r lt = (omega arith, omega arith)
Rising-append low (q ∷ ps) top p r lt = (r.0, Rising-append q.target_height ps top p r.1 lt)

-- A call on the gadget, or a block of the graph's own calls, that leaves its finalized height alone.
pub data Call : Type 0 where
  vote : FinalityVote → Call
  sync : FinalityProof → Call
  epoch : List ValidatorInfo → ℕ → Call

module _ (c : Secp) where
  abbrev pub without_result : Result NexusError Unit × FinalityGadget × Dag → FinalityGadget × Dag
  without_result (_, g, d) = (g, d)

  abbrev pub step : FinalityGadget × Dag → Call → FinalityGadget × Dag
  step (g, d) (vote v) = ((add_vote c g v).1, d)
  step (g, d) (sync proof) = without_result (apply_proof c g d proof)
  step (g, d) (epoch validators n) = (update_validator_set g validators n, d)

  abbrev pub run : FinalityGadget × Dag → List Call → FinalityGadget × Dag
  run s [] = s
  run s (e ∷ es) = run (step s e) es

  -- The votes are valid, the proofs rise up to the finalized height, and the graph is not ahead.
  abbrev pub IsFinality : FinalityGadget × Dag → Type 0
  IsFinality (g, d) =
      IsGadget c g
      × Rising 0 g.proofs g.state.finalized_height
      × (d.finalized_height ≤ g.state.finalized_height)

  raised :
      (d : Dag) (n : ℕ) → d.finalized_height ≤ n → (set_finalized_height d n).finalized_height ≤ n
  unfolding set_finalized_height
  raised d n le = ground arith

  abbrev applied : FinalityGadget → FinalityProof → FinalityGadget
  applied g proof = record g {
    state = record g.state {
      finalized_height = proof.target_height;
      finalized_hash = proof.target_hash;
    };
    proofs = g.proofs ++ (proof ∷ []);
  }

  -- `apply_proof` changes nothing, or applies a proof that verifies and is higher.
  apply_proof-cases :
      (g : FinalityGadget) (d : Dag) (proof : FinalityProof)
      → ((r : Result NexusError Unit) × (apply_proof c g d proof ≡ (r, g, d)))
        ⊎ ((g.state.finalized_height < proof.target_height)
            × (apply_proof c g d proof
                ≡ (ok tt, applied g proof, set_finalized_height d proof.target_height)))
  unfolding apply_proof
  apply_proof-cases g d proof = elim (Result-cases (verify c proof g.validator_set)) [
    | inl (e, bad) ↦ inl (err e, rw (bad, apply_proof) refl)
    | inr (b, good) ↦ elim (Bool-cases (contains_vertex d proof.target_hash)) [
      | inl there ↦ elim (Bool-cases (ltb g.state.finalized_height proof.target_height)) [
        | inl higher ↦ inr (ground arith, rw (good, there, higher, apply_proof) refl)
        | inr lower ↦ inl (ok tt, rw (good, there, lower, apply_proof) refl)
      ]
      | inr absent ↦ inl (err proof_target_not_found, rw (good, absent, apply_proof) refl)
    ]
  ]

  sync-IsFinality :
      (g : FinalityGadget) (d : Dag) (proof : FinalityProof)
      → IsGadget c g
      → Rising 0 g.proofs g.state.finalized_height
      → d.finalized_height ≤ g.state.finalized_height
      → IsFinality (step (g, d) (sync proof))
  sync-IsFinality g d proof i r le = elim (apply_proof-cases g d proof) [
    | inl (res, same) ↦ subst (λ o. IsFinality (without_result o)) (sym same) (i, r, le)
    | inr (higher, new) ↦
        subst (λ o. IsFinality (without_result o)) (sym new)
          (
            i,
            Rising-append 0 g.proofs g.state.finalized_height proof r higher,
            raised d proof.target_height (omega arith),
          )
  ]

  step-IsFinality : (s : FinalityGadget × Dag) (e : Call) → IsFinality s → IsFinality (step s e)
  step-IsFinality (g, d) (vote v) (i, r, le) = kept (add_vote c g v) (add_vote-Added c g v i)
    where
      kept :
          (o : Result NexusError (Option FinalityProof) × FinalityGadget)
          → Added c g o
          → IsFinality (o.1, d)
      kept (err e, g') same = subst (λ x. IsFinality (x, d)) (sym same) (i, r, le)
      kept (ok none, g') (height, proofs, i') = (i', rw (height, proofs) r, rw height le)
      kept (ok (some p), g') ((good, higher, height, hash, proofs), i') = (
        i',
        rw (height, proofs) (Rising-append 0 g.proofs g.state.finalized_height p r higher),
        omega arith,
      )
  step-IsFinality (g, d) (sync proof) (i, r, le) = sync-IsFinality g d proof i r le
  step-IsFinality (g, d) (epoch validators n) (i, r, le) = ((tt, tt), r, le)

  -- From a new gadget and a graph in which nothing is final, every sequence of votes, proofs from
  -- peers and new validator sets keeps the votes valid, the recorded proofs strictly rising up to
  -- the finalized height, and the graph's finalized height at or below the gadget's.
  pub run-IsFinality :
      (config : FinalityConfig) (validators : List ValidatorInfo) (d : Dag) (es : List Call)
      → d.finalized_height ≡ 0
      → IsFinality (run (new_gadget config validators, d) es)
  run-IsFinality config validators d es start =
      from (new_gadget config validators, d) es ((tt, tt), omega arith, omega arith)
    where
      from : (s : FinalityGadget × Dag) (es : List Call) → IsFinality s → IsFinality (run s es)
      from s [] i = i
      from s (e ∷ es) i = from (step s e) es (step-IsFinality s e i)
