-- ===== src/Dag/Graph/Run.antt =====
-- Runs of calls on the graph of dag.rs: genesis, new vertices, new finalized heights.
use nexus_chain.Base.{
  ℕ, ◌≡◌, refl, sym, ◌∙◌, ap, List, [], ◌∷◌, Option, none, some, Result, inl, inr, Bool-cases, ltb,
}
use mathlib.Core.Path.{subst}
use nexus_chain.Primitives.Errors.{NexusError}
use nexus_chain.Base.Map.{insert, lookup-insert}
use nexus_chain.Primitives.Merkle.{Hash}
use nexus_chain.Primitives.Signature.{Secp}
use nexus_chain.Dag.Vertex.{Vertex}
use nexus_chain.Dag.Graph.{
  Dag, DagConfig, new_dag, is_some, Outcome, set_insert, add_at, missing_of, expected_height,
  init_genesis, add_vertex,
}
use nexus_chain.Dag.Graph.Store.{elem-set_insert, elem-add_at}
use nexus_chain.Dag.Graph.Invariant.{IsDag, IsView-stored}
use nexus_chain.Dag.Graph.Steps.{Kept, add_vertex-Kept}
use nexus_chain.Dag.Graph.Fuel.{add_vertex-returns}
use nexus_chain.Dag.Graph.Queries.{set_finalized_height}

-- A call on the graph.
pub data Call : Type 0 where
  init : Vertex → Call
  add : ℕ → Vertex → Call
  finalize : ℕ → Call

abbrev pub graph_of : Outcome → Option Dag
graph_of none = none
graph_of (some (_, d)) = some d

abbrev pub and_run : Option Dag → (Dag → Option Dag) → Option Dag
and_run none k = none
and_run (some d) k = k d

abbrev pub step : Secp → Dag → Call → Option Dag
step c d (init v) = some (init_genesis d v).1
step c d (add now v) = graph_of (add_vertex c d now v)
step c d (finalize height) = some (set_finalized_height d height)

abbrev pub run : Secp → Dag → List Call → Option Dag
run c d [] = some d
run c d (e ∷ es) = and_run (step c d e) (λ d'. run c d' es)

module _ (origin : Hash → List Hash) where
  -- Every vertex given to the graph has the parents that its hash stands for; genesis has none.
  abbrev pub IsCall : Call → Type 0
  IsCall (init v) = (v.parents ≡ []) × (v.height ≡ 0) × (origin v.hash ≡ [])
  IsCall (add now v) = v.parents ≡ origin v.hash
  IsCall (finalize height) = Unit

  abbrev pub AreCalls : List Call → Type 0
  AreCalls [] = Unit
  AreCalls (e ∷ es) = IsCall e × AreCalls es

  new_dag-IsDag : (config : DagConfig) → IsDag origin (new_dag config)
  new_dag-IsDag config = (
    record {
      named = λ h v e. cc;
      present = λ h v p e q. cc;
      heights = λ h v e. cc;
      listed = λ h v e. cc;
      listed_only = λ h n e. cc;
      tips_known = λ h e. cc;
      covered = λ h e q. cc;
      child = λ h v p e q. cc;
      child_only = λ h p e. cc;
    },
    λ h v e. cc,
  )

  init-IsDag :
      (d : Dag) (v : Vertex) → IsCall (init v) → IsDag origin d → IsDag origin (init_genesis d v).1
  unfolding init_genesis expected_height
  init-IsDag d v (orphan, low, known) i = elim (Bool-cases (is_some d.genesis_hash)) [
    | inl set ↦ rw set i
    | inr unset ↦ rw unset (
      IsView-stored origin d.vertices d.children d.tips d.by_height (insert v.hash v d.vertices)
          d.children (set_insert v.hash d.tips) (add_at 0 v.hash d.by_height) v i.0
          (orphan ∙ sym known) (low ∙ ap (expected_height d.vertices) (sym orphan))
          (ap (missing_of d.vertices) orphan) (λ k. lookup-insert k v.hash v d.vertices)
          (λ k q. rw orphan refl) (λ k. rw orphan (elem-set_insert k v.hash d.tips))
          (λ k n. rw low (elem-add_at k n 0 v.hash d.by_height)),
      i.1,
    )
  ]

  finalize-IsDag :
      (d : Dag) (height : ℕ) → IsDag origin d → IsDag origin (set_finalized_height d height)
  unfolding set_finalized_height
  finalize-IsDag d height i = elim (Bool-cases (ltb d.finalized_height height)) [
    | inl up ↦ rw up i
    | inr same ↦ rw same i
  ]

  Kept-some :
      (o : Outcome) (r : Result NexusError Unit) (d : Dag)
      → o ≡ some (r, d)
      → Kept origin o
      → IsDag origin d
  Kept-some o r d e k = subst (Kept origin) e k

  step-IsDag :
      (c : Secp) (d : Dag) (e : Call)
      → IsCall e
      → IsDag origin d
      → (d' : Dag) × (step c d e ≡ some d') × IsDag origin d'
  step-IsDag c d (init v) o i = (_, refl, init-IsDag d v o i)
  step-IsDag c d (add now v) o i =
      let (r, d', e, le) = add_vertex-returns c d now v in
      (
        d',
        ap graph_of e,
        Kept-some (add_vertex c d now v) r d' e (add_vertex-Kept origin c d now v i o),
      )
  step-IsDag c d (finalize height) o i = (_, refl, finalize-IsDag d height i)

  run-IsDag_from :
      (c : Secp) (d : Dag) (es : List Call)
      → AreCalls es
      → IsDag origin d
      → (d' : Dag) × (run c d es ≡ some d') × IsDag origin d'
  run-IsDag_from c d [] os i = (d, refl, i)
  run-IsDag_from c d (e ∷ es) os i =
      let (d', s, i') = step-IsDag c d e os.0 i in
      let (d2, r, i2) = run-IsDag_from c d' es os.1 i' in
      (d2, ap (λ x. and_run x (λ d'. run c d' es)) s ∙ r, i2)

  pub run-IsDag :
      (c : Secp) (config : DagConfig) (es : List Call)
      → AreCalls es
      → (d : Dag) × (run c (new_dag config) es ≡ some d) × IsDag origin d
  run-IsDag c config es os = run-IsDag_from c (new_dag config) es os (new_dag-IsDag config)
