-- ===== src/Dag/Graph/Tests.antt =====
-- A graph of dag.rs with a genesis and two vertices, the later one added first.
use nexus_chain.Base.{
  ℕ, ◌+◌, ◌≤◌, ◌≡◌, refl, Bool, true, ◌↔◌, List, [], ◌∷◌, Option, none, some, Result, arith,
  if◌then◌else◌, ◌==◌, ltb, length,
}
use mathlib.Core.Path.{subst}
use mathlib.Core.List.{flat_map}
use nexus_chain.Base.{sym, ap, inl, inr, ◌<◌, ◌^◌, Bool-cases, to_le_bytes, to_be_bytes}
use nexus_chain.Base.Map.{Map, lookup}
use nexus_chain.Primitives.Errors.{NexusError}
use nexus_chain.Primitives.Merkle.{
  Hash, compute_merkle_root, merkle_loop, vertex_hash, vertex_bytes,
}
use nexus_chain.Primitives.Signature.Toy.{toy}
use nexus_chain.Dag.Vertex.{Vertex, genesis, zero_signature, verify_structure}
use nexus_chain.Dag.Graph.{
  Dag, default_config, new_dag, add_vertex, init_genesis, verify_timestamp, insert_vertex,
  expected_height, process_waiting, store, link_parents,
}
use nexus_chain.Dag.Graph.Invariant.{IsDag}
use nexus_chain.Dag.Graph.Run.{Call, init, add, finalize, run, AreCalls, run-IsDag}
use nexus_chain.Dag.Graph.Fuel.{add_vertex-returns}
use nexus_chain.Dag.Graph.Queries.{is_ancestor, prune, latest_height, set_finalized_height}
use nexus_chain.Dag.Graph.Queries.Search.{Descends, is_ancestor_iff}
use nexus_chain.Dag.Graph.Queries.Latest.{IsSmall, latest_height_lem}
use nexus_chain.Dag.Graph.Queries.Prune.{prune-lookup}

abbrev vertex_at : Hash → List Hash → ℕ → ℕ → Vertex
vertex_at hash parents height timestamp = record {
  hash = hash;
  parents = parents;
  height = height;
  timestamp = timestamp;
  validator = 0;
  transactions = [];
  tx_root = 0;
  state_root = 0;
  receipts_root = 0;
  weight = 1;
  signature = zero_signature;
  version = 1;
  extra_data = [];
}

abbrev pub first : Vertex
first = vertex_at 6 (0 ∷ []) 1 5

abbrev pub second : Vertex
second = vertex_at 16 (6 ∷ []) 2 9

abbrev pub origin : Hash → List Hash
origin k = if k == 6 then 0 ∷ [] else if k == 16 then 6 ∷ [] else []

abbrev calls : List Call
calls = init (genesis 1 0) ∷ add 10 second ∷ add 10 first ∷ finalize 2 ∷ []

calls-AreCalls : AreCalls origin calls
calls-AreCalls = ((refl, refl, refl), (refl, (refl, (tt, tt))))

run-IsDag_example : (d : Dag) × (run toy (new_dag default_config) calls ≡ some d) × IsDag origin d
run-IsDag_example = run-IsDag origin toy default_config calls calls-AreCalls

abbrev some_dag : Option Dag → Dag
some_dag none = new_dag default_config
some_dag (some d) = d

abbrev pub grown : Dag
grown = some_dag (run toy (new_dag default_config) calls)

-- The waiting vertex is stored as soon as its parent is there.
pub grown_vertices : grown.vertices ≡ (16, second) ∷ (6, first) ∷ (0, genesis 1 0) ∷ []
unfolding add_vertex init_genesis verify_structure compute_merkle_root merkle_loop vertex_hash
    vertex_bytes to_le_bytes flat_map to_be_bytes verify_timestamp insert_vertex expected_height
    process_waiting store link_parents set_finalized_height
grown_vertices = refl

grown_tips : (grown.tips ≡ 16 ∷ []) × (length grown.pending ≡ 0)
unfolding add_vertex init_genesis verify_structure compute_merkle_root merkle_loop vertex_hash
    vertex_bytes to_le_bytes flat_map to_be_bytes verify_timestamp insert_vertex expected_height
    process_waiting store link_parents set_finalized_height
grown_tips = (refl, refl)

pub grown_final : grown.finalized_height ≡ 2
unfolding add_vertex init_genesis verify_structure compute_merkle_root merkle_loop vertex_hash
    vertex_bytes to_le_bytes flat_map to_be_bytes verify_timestamp insert_vertex expected_height
    process_waiting store link_parents set_finalized_height
grown_final = refl

pub grown-IsDag : IsDag origin grown
grown-IsDag =
    let (d, e, i) = run-IsDag origin toy default_config calls calls-AreCalls in
    subst (λ o. IsDag origin (some_dag o)) (sym e) i

pub second_stored : lookup 16 grown.vertices ≡ some second
second_stored = ap (lookup 16) grown_vertices

IsSmall-cons :
    (k : Hash) (u : Vertex) (m : Map Vertex)
    → u.height + 1 < 2 ^ 64
    → IsSmall m
    → IsSmall ((k, u) ∷ m)
IsSmall-cons k u m lt small h v e = elim (Bool-cases (h == k)) [
  | inl same ↦ let one : u ≡ v = cc in subst (λ w. w.height + 1 < 2 ^ 64) one lt
  | inr other ↦ small h v (cc (e, other))
]

pub grown-IsSmall : IsSmall grown.vertices
grown-IsSmall = subst IsSmall (sym grown_vertices) (
    IsSmall-cons 16 second ((6, first) ∷ (0, genesis 1 0) ∷ []) (omega arith) (
      IsSmall-cons 6 first ((0, genesis 1 0) ∷ []) (omega arith)
        (IsSmall-cons 0 (genesis 1 0) [] (omega arith) (λ h v e. cc))))

add_vertex-returns_example :
    (r : Result NexusError Unit) × (d : Dag) × (add_vertex toy grown 20
        (vertex_at 29 (16 ∷ []) 3 12)
      ≡ some (r, d))
    × (length d.pending ≤ length grown.pending + 1)
add_vertex-returns_example = add_vertex-returns toy grown 20 (vertex_at 29 (16 ∷ []) 3 12)

is_ancestor_iff_example :
    (r : Bool) × (is_ancestor grown 0 16 ≡ some r) × ((r ≡ true) ↔ Descends grown.vertices 0 16)
is_ancestor_iff_example = is_ancestor_iff grown 0 16

latest_height_lem_example : second.height ≤ latest_height grown
latest_height_lem_example =
    latest_height_lem origin grown 16 second grown-IsDag grown-IsSmall second_stored

prune-lookup_example :
    lookup 16 (prune grown 1).1.vertices ≡ (if ltb second.height 1 then none else some second)
prune-lookup_example =
    prune-lookup origin grown 1 16 second grown-IsDag (rw grown_final (omega arith)) second_stored
