-- ===== src/Dag/Graph/Queries.antt =====
-- The rest of dag.rs: the queries, `set_finalized_height`, `prune` and the searches. A `while` over a
-- queue is recursion on fuel, with `none` for a run out of it.
pub mod Prune
pub mod Latest
pub mod Search
use nexus_chain.Base.{
  ℕ, zero, suc, ◌+◌, Bool, true, false, not, ◌&&◌, ◌||◌, List, [], ◌∷◌, ◌++◌, map, reverse, Option,
  none, some, if◌then◌else◌, ◌==◌, ltb, leb, elem, select, filter_map, length, sum,
}
use nexus_chain.Base.Map.{Map, lookup, insert, remove, values}
use nexus_chain.Primitives.Merkle.{Hash}
use nexus_chain.Dag.Vertex.{Vertex, VertexStatus, finalized}
use nexus_chain.Dag.Graph.{Dag, set_at, height_at, max_of}

abbrev pub get_tips : Dag → List Hash
get_tips d = d.tips

abbrev pub get_vertex : Dag → Hash → Option Vertex
get_vertex d h = lookup h d.vertices

abbrev pub get_status : Dag → Hash → Option VertexStatus
get_status d h = lookup h d.status

abbrev pub get_vertices_at_height : Dag → ℕ → List Hash
get_vertices_at_height d height = set_at height d.by_height

abbrev pub get_children : Dag → Hash → List Hash
get_children d h = set_at h d.children

unfoldable pub latest_height : Dag → ℕ
latest_height d = max_of (filter_map (height_at d.vertices) d.tips)

abbrev pub mark_finalized : List Hash → Map VertexStatus → Map VertexStatus
mark_finalized [] status = status
mark_finalized (h ∷ hs) status = mark_finalized hs (insert h finalized status)

unfoldable pub set_finalized_height : Dag → ℕ → Dag
set_finalized_height d height =
    if ltb d.finalized_height height
    then record d {
      finalized_height = height;
      status = mark_finalized (set_at height d.by_height) d.status;
    }
    else d

-- The inner loop of `prune` over the hashes of one height.
unfoldable pub drop_hashes : List Hash → Dag → Dag
drop_hashes [] d = d
drop_hashes (h ∷ hs) d = drop_hashes hs (record d {
  vertices = remove h d.vertices;
  status = remove h d.status;
  children = remove h d.children;
})

-- The outer loop: `n` heights, from `height` up, with the count so far.
unfoldable pub prune_heights : ℕ → ℕ → ℕ → Dag → ℕ × Dag
prune_heights zero height pruned d = (pruned, d)
prune_heights (suc n) height pruned d =
    let hashes = set_at height d.by_height in
    prune_heights n (height + 1) (pruned + length hashes)
      (drop_hashes hashes (record d { by_height = remove height d.by_height }))

unfoldable pub prune : Dag → ℕ → ℕ × Dag
prune d keep = if leb d.finalized_height keep then (0, d) else prune_heights keep 0 0 d

pub record DagStats : Type 0 where
  pub total_vertices : ℕ
  pub tips_count : ℕ
  pub pending_count : ℕ
  pub latest_height : ℕ
  pub finalized_height : ℕ

abbrev pub stats : Dag → DagStats
stats d = record {
  total_vertices = length d.vertices;
  tips_count = length d.tips;
  pending_count = length d.pending;
  latest_height = latest_height d;
  finalized_height = d.finalized_height;
}

-- The parents of `current` in the maps, none when it is not stored.
abbrev pub parents_of : Map Vertex → Hash → List Hash
parents_of vertices current = elim (lookup current vertices) [ none ↦ [] | some v ↦ v.parents ]

abbrev pub unseen : List Hash → List Hash → List Hash
unseen visited hs = select (λ h. not (elem h visited)) hs

-- The loop of `is_ancestor`.
unfoldable pub ancestor_loop : Map Vertex → Hash → ℕ → List Hash → List Hash → Option Bool
ancestor_loop vertices ancestor zero queue visited = none
ancestor_loop vertices ancestor (suc fuel) [] visited = some false
ancestor_loop vertices ancestor (suc fuel) (current ∷ queue) visited =
    let seen = ancestor_loop vertices ancestor fuel queue visited in
    let next =
      ancestor_loop vertices ancestor fuel
        (queue ++ unseen (current ∷ visited) (parents_of vertices current)) (current ∷ visited) in
    if current == ancestor then some true else if elem current visited then seen else next

-- One turn for each parent link, one for the start and one for the empty queue.
abbrev pub search_fuel : Map Vertex → ℕ
search_fuel vertices = 2 + sum (map (λ v. length v.parents) (values vertices))

unfoldable pub is_ancestor : Dag → Hash → Hash → Option Bool
is_ancestor d ancestor descendant =
    ancestor_loop d.vertices ancestor (search_fuel d.vertices) (descendant ∷ []) []

-- The loop of `get_ancestors` over hashes with their depths; `ancestors` is in reverse.
unfoldable pub ancestors_loop :
    Map Vertex → ℕ → ℕ → List (Hash × ℕ) → List Hash → List Hash → Option (List Hash)
ancestors_loop vertices max_depth zero queue visited ancestors = none
ancestors_loop vertices max_depth (suc fuel) [] visited ancestors = some (reverse ancestors)
ancestors_loop vertices max_depth (suc fuel) ((current, depth) ∷ queue) visited ancestors =
    let skip = ancestors_loop vertices max_depth fuel queue visited ancestors in
    let next =
      ancestors_loop vertices max_depth fuel
        (queue
          ++ map (λ p. (p, depth + 1)) (unseen (current ∷ visited) (parents_of vertices current)))
        (current ∷ visited) (current ∷ ancestors) in
    if elem current visited || ltb max_depth depth then skip else next

unfoldable pub get_ancestors : Dag → Hash → ℕ → Option (List Hash)
get_ancestors d h max_depth =
    ancestors_loop d.vertices max_depth (search_fuel d.vertices)
      (map (λ p. (p, 1)) (parents_of d.vertices h)) [] []

-- The loop of `calculate_weight` over the children.
unfoldable pub weight_loop : Dag → ℕ → List Hash → List Hash → ℕ → Option ℕ
weight_loop d zero queue visited weight = none
weight_loop d (suc fuel) [] visited weight = some weight
weight_loop d (suc fuel) (current ∷ queue) visited weight =
    let skip = weight_loop d fuel queue visited weight in
    let absent = weight_loop d fuel queue (current ∷ visited) weight in
    let next =
      weight_loop d fuel (queue ++ unseen (current ∷ visited) (get_children d current))
        (current ∷ visited) (weight + 1) in
    if elem current visited
    then skip
    else elim (lookup current d.vertices) [ none ↦ absent | some _ ↦ next ]

unfoldable pub calculate_weight : Dag → Hash → Option ℕ
calculate_weight d h = weight_loop d (2 + sum (map length (values d.children))) (h ∷ []) [] 0
