-- ===== src/Dag/Graph/Queries/Latest.antt =====
-- `latest_height` of dag.rs looks at the tips alone, and still bounds the height of every vertex.
use nexus_chain.Base.{
  ℕ, zero, suc, ◌+◌, ◌^◌, ◌<◌, ◌≤◌, ◌≡◌, refl, sym, ◌∙◌, ap, true, List, [], ◌∷◌, some, inl, inr,
  arith, ◌==◌, Bool-cases, Option-cases, ==→eq, elem, filter_map,
}
use nexus_chain.Base.Map.{Map, lookup, contains_key}
use nexus_chain.Primitives.Merkle.{Hash}
use nexus_chain.Dag.Vertex.{Vertex}
use nexus_chain.Dag.Graph.{Dag, height_at, max_of, height_above, expected_height}
use nexus_chain.Dag.Graph.Invariant.{IsDag}
use nexus_chain.Dag.Graph.Queries.{latest_height}

height_at-stored :
    (m : Map Vertex) (h : Hash) (v : Vertex) → lookup h m ≡ some v → height_at m h ≡ some v.height
height_at-stored m h v e = rw (e, height_at) refl

contains_key-stored :
    (m : Map Vertex) (h : Hash) (v : Vertex) → lookup h m ≡ some v → contains_key h m ≡ true
contains_key-stored m h v e = rw (e, contains_key) refl

height-elem :
    (m : Map Vertex) (hs : List Hash) (h : Hash) (n : ℕ)
    → elem h hs ≡ true
    → height_at m h ≡ some n
    → elem n (filter_map (height_at m) hs) ≡ true
height-elem m [] h n e q = cc
height-elem m (x ∷ hs) h n e q = elim (Bool-cases (h == x)) [
  | inl same ↦ ground (arith, ap (height_at m) (sym (==→eq h x same)) ∙ q)
  | inr other ↦ ground (arith, height-elem m hs h n)
]

elem-max_of : (n : ℕ) (xs : List ℕ) → elem n xs ≡ true → n ≤ max_of xs
elem-max_of n [] e = cc
elem-max_of n (x ∷ xs) e = ground (arith, elem-max_of n xs)

-- Every stored height stays clear of the end of u64, where one more would wrap.
abbrev pub IsSmall : Map Vertex → Type 0
IsSmall m = (h : Hash) (v : Vertex) → lookup h m ≡ some v → v.height + 1 < 2 ^ 64

max_of-IsSmall :
    (m : Map Vertex) (hs : List Hash)
    → IsSmall m
    → max_of (filter_map (height_at m) hs) + 1 < 2 ^ 64
max_of-IsSmall m [] small = omega arith
max_of-IsSmall m (x ∷ hs) small = elim (Option-cases (lookup x m)) [
  | inl absent ↦ ground (arith, max_of-IsSmall m hs small)
  | inr (v, there) ↦ ground (arith, max_of-IsSmall m hs small, small x v there)
]

elem-height_above :
    (n : ℕ) (xs : List ℕ) → elem n xs ≡ true → max_of xs + 1 < 2 ^ 64 → n < height_above xs
elem-height_above n [] e small = cc
elem-height_above n (x ∷ xs) e small = omega (arith, elem-max_of n (x ∷ xs) e, small)

-- In a graph that keeps the invariant, a stored vertex is strictly above each of its parents, as
-- long as no height is at the end of u64.
pub parent-lower :
    (origin : Hash → List Hash) (d : Dag) (h k : Hash) (v u : Vertex)
    → IsDag origin d
    → IsSmall d.vertices
    → lookup h d.vertices ≡ some v
    → lookup k d.vertices ≡ some u
    → elem h u.parents ≡ true
    → v.height < u.height
unfolding expected_height
parent-lower origin d h k v u i small low high at = omega (
  arith,
  i.0.heights k u high,
  elem-height_above v.height (filter_map (height_at d.vertices) u.parents)
      (height-elem d.vertices u.parents h v.height at (height_at-stored d.vertices h v low))
      (max_of-IsSmall d.vertices u.parents small),
)

below_latest :
    (origin : Hash → List Hash) (d : Dag) (n : ℕ) (h : Hash) (v : Vertex)
    → IsDag origin d
    → IsSmall d.vertices
    → lookup h d.vertices ≡ some v
    → 2 ^ 64 ≤ v.height + n
    → v.height ≤ latest_height d
unfolding latest_height
below_latest origin d zero h v i small there le = ground (arith, small h v there)
below_latest origin d (suc n) h v i small there le = elim (Bool-cases (elem h d.tips)) [
  | inl tip ↦
      elem-max_of v.height (filter_map (height_at d.vertices) d.tips)
        (height-elem d.vertices d.tips h v.height tip (height_at-stored d.vertices h v there))
  | inr inner ↦
      let (k, u, above, at) = i.0.covered h (contains_key-stored d.vertices h v there) inner in
      let lower = parent-lower origin d h k v u i small there above at in
      omega (arith, lower, below_latest origin d n k u i small above (omega (arith, lower)))
]

-- In a graph that keeps the invariant, no vertex is higher than `latest_height`, which looks at the
-- tips alone, as long as no height is at the end of u64.
pub latest_height_lem :
    (origin : Hash → List Hash) (d : Dag) (h : Hash) (v : Vertex)
    → IsDag origin d
    → IsSmall d.vertices
    → lookup h d.vertices ≡ some v
    → v.height ≤ latest_height d
latest_height_lem origin d h v i small there =
    below_latest origin d (2 ^ 64) h v i small there (omega arith)
