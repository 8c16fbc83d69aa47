-- ===== src/Dag/Graph.antt =====
-- `Dag` of crates/nexus-dag/src/dag.rs. A `DashMap` is a map of Base/Map.antt, a `HashSet` a list
-- without repetition, and the clock an argument. The locks guard single calls and are left out.
pub mod Invariant
pub mod Store
pub mod Fuel
pub mod Steps
pub mod Run
pub mod Queries
pub mod Tests
use nexus_chain.Base.{
  ℕ, zero, suc, ◌+◌, ◌*◌, Bool, true, false, not, List, [], ◌∷◌, ◌++◌, Option, none, some, Result,
  ok, err, if◌then◌else◌, ◌==◌, ltb, leb, add64, mul64, max, elem, select, filter_map, length,
}
use nexus_chain.Base.Map.{Map, lookup, insert, remove, contains_key}
use nexus_chain.Primitives.Errors.{
  NexusError, genesis_already_set, invalid_height, timestamp_in_future, timestamp_before_parent,
}
use nexus_chain.Primitives.Merkle.{Hash}
use nexus_chain.Primitives.Signature.{Secp}
use nexus_chain.Dag.Vertex.{
  Vertex, VertexStatus, awaiting_parents, confirmed, finalized, verify_structure,
}

pub record DagConfig : Type 0 where
  pub max_tip_depth : ℕ
  pub confirmation_threshold : ℕ
  pub max_vertices_in_memory : ℕ
  pub pruning_depth : ℕ
  pub max_time_drift : ℕ

abbrev pub default_config : DagConfig
default_config = record {
  max_tip_depth = 100;
  confirmation_threshold = 1000;
  max_vertices_in_memory = 100000;
  pruning_depth = 10000;
  max_time_drift = 30;
}

pub record Dag : Type 0 where
  pub config : DagConfig
  pub vertices : Map Vertex
  pub status : Map VertexStatus
  pub children : Map (List Hash)
  pub tips : List Hash
  pub by_height : Map (List Hash)
  pub finalized_height : ℕ
  pub genesis_hash : Option Hash
  pub pending : Map Vertex
  pub orphan_deps : Map (List Hash)

abbrev pub new_dag : DagConfig → Dag
new_dag config = record {
  config = config;
  vertices = [];
  status = [];
  children = [];
  tips = [];
  by_height = [];
  finalized_height = 0;
  genesis_hash = none;
  pending = [];
  orphan_deps = [];
}

abbrev pub set_insert : Hash → List Hash → List Hash
set_insert h hs = if elem h hs then hs else h ∷ hs

abbrev pub set_remove : Hash → List Hash → List Hash
set_remove h hs = select (λ k. not (h == k)) hs

abbrev pub set_at : ℕ → Map (List Hash) → List Hash
set_at k m = elim (lookup k m) [ none ↦ [] | some hs ↦ hs ]

-- `entry(k).or_default().insert(h)`
abbrev pub add_at : ℕ → Hash → Map (List Hash) → Map (List Hash)
add_at k h m = insert k (set_insert h (set_at k m)) m

abbrev pub is_some : Option Hash → Bool
is_some none = false
is_some (some _) = true

unfoldable pub init_genesis : Dag → Vertex → Result NexusError Unit × Dag
init_genesis d genesis = if is_some d.genesis_hash then (err genesis_already_set, d) else (
  ok tt,
  record d {
    vertices = insert genesis.hash genesis d.vertices;
    status = insert genesis.hash finalized d.status;
    by_height = add_at 0 genesis.hash d.by_height;
    tips = set_insert genesis.hash d.tips;
    genesis_hash = some genesis.hash;
  },
)

abbrev pub height_at : Map Vertex → Hash → Option ℕ
height_at vertices h = elim (lookup h vertices) [ none ↦ none | some v ↦ some v.height ]

abbrev pub max_of : List ℕ → ℕ
max_of [] = 0
max_of (x ∷ xs) = max x (max_of xs)

-- `max().map(|h| h + 1).unwrap_or(0)`
abbrev pub height_above : List ℕ → ℕ
height_above [] = 0
height_above (x ∷ xs) = add64 (max_of (x ∷ xs)) 1

unfoldable pub expected_height : Map Vertex → List Hash → ℕ
expected_height vertices parents = height_above (filter_map (height_at vertices) parents)

abbrev pub missing_of : Map Vertex → List Hash → List Hash
missing_of vertices parents = select (λ p. not (contains_key p vertices)) parents

-- The loop over the parents: the vertex becomes a child of each, and none of them stays a tip.
unfoldable pub link_parents : Hash → List Hash → Dag → Dag
link_parents h [] d = d
link_parents h (p ∷ ps) d =
    link_parents h ps (record d { children = add_at p h d.children; tips = set_remove p d.tips })

-- The writes of `insert_vertex`.
unfoldable pub store : Dag → Vertex → Dag
store d v =
    let stored = record d {
      vertices = insert v.hash v d.vertices;
      status = insert v.hash confirmed d.status;
    } in
    let linked = link_parents v.hash v.parents stored in
    record linked {
      tips = set_insert v.hash linked.tips;
      by_height = add_at v.height v.hash linked.by_height;
    }

-- `orphan_deps.entry(parent).or_default().insert(h)` for each missing parent.
abbrev pub wait_for : List Hash → Hash → Map (List Hash) → Map (List Hash)
wait_for [] h deps = deps
wait_for (p ∷ ps) h deps = wait_for ps h (add_at p h deps)

-- `none` is a run out of fuel.
abbrev pub Outcome : Type 0
Outcome = Option (Result NexusError (Unit {0}) × Dag)

-- `?`: the call that follows runs only after an `Ok`.
abbrev pub and_then : Outcome → (Dag → Outcome) → Outcome
and_then none k = none
and_then (some (err e, d)) k = some (err e, d)
and_then (some (ok _, d)) k = k d

-- A waiting vertex, with the parents it still lacks: it is inserted, or waits on.
abbrev pub retry : (Dag → Vertex → Outcome) → Dag → Hash → Vertex → List Hash → Outcome
retry ins d h v [] = ins (record d { pending = remove h d.pending }) v
retry ins d h v (p ∷ ps) = some (
  ok tt,
  record d {
    orphan_deps = wait_for (p ∷ ps) h d.orphan_deps;
    pending = insert h v (remove h d.pending);
  },
)

abbrev pub process_one : (Dag → Vertex → Outcome) → Dag → Hash → Outcome
process_one ins d h = elim (lookup h d.pending) [
  | none ↦ some (ok tt, d)
  | some v ↦ retry ins d h v (missing_of d.vertices v.parents)
]

-- The loop of `process_orphans` over the waiting vertices, with `insert_vertex` as `ins`.
unfoldable pub process_waiting : (Dag → Vertex → Outcome) → Dag → List Hash → Outcome
process_waiting ins d [] = some (ok tt, d)
process_waiting ins d (h ∷ hs) = and_then (process_one ins d h) (λ d'. process_waiting ins d' hs)

-- `insert_vertex` calls `process_orphans`, which calls it again: the fuel bounds the nesting.
unfoldable pub insert_vertex : ℕ → Dag → Vertex → Outcome
insert_vertex zero d v = none
insert_vertex (suc fuel) d v =
    let ins = insert_vertex fuel in
    let stored = store d v in
    if v.height == expected_height d.vertices v.parents
    then process_waiting ins (record stored { orphan_deps = remove v.hash stored.orphan_deps })
        (set_at v.hash stored.orphan_deps)
    else some (err (invalid_height (expected_height d.vertices v.parents) v.height), d)

-- The loop over the parents in `verify_timestamp`.
abbrev pub after_parents : Map Vertex → ℕ → List Hash → Result NexusError Unit
after_parents vertices timestamp [] = ok tt
after_parents vertices timestamp (p ∷ ps) = elim (lookup p vertices) [
  | none ↦ after_parents vertices timestamp ps
  | some parent ↦
      if ltb timestamp parent.timestamp
      then err timestamp_before_parent
      else after_parents vertices timestamp ps
]

unfoldable pub verify_timestamp : Dag → ℕ → Vertex → Result NexusError Unit
verify_timestamp d now v =
    if ltb (add64 now (mul64 d.config.max_time_drift 1000)) v.timestamp
    then err timestamp_in_future
    else after_parents d.vertices v.timestamp v.parents

-- Fuel for the nesting: each nested call takes a vertex out of `pending`.
abbrev pub insert_fuel : Dag → ℕ
insert_fuel d = suc (length d.pending)

unfoldable pub add_vertex : Secp → Dag → ℕ → Vertex → Outcome
add_vertex c d now v =
    if contains_key v.hash d.vertices then some (ok tt, d) else elim (verify_structure c v) [
      | err e ↦ some (err e, d)
      | ok _ ↦ elim (verify_timestamp d now v) [
        | err e ↦ some (err e, d)
        | ok _ ↦ elim (missing_of d.vertices v.parents) [
          | [] ↦ insert_vertex (insert_fuel d) d v
          | p ∷ ps ↦ some (
            ok tt,
            record d {
              orphan_deps = wait_for (p ∷ ps) v.hash d.orphan_deps;
              pending = insert v.hash v d.pending;
              status = insert v.hash awaiting_parents d.status;
            },
          )
        ]
      ]
    ]
