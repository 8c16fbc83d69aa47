-- ===== src/Dag/Graph/Queries/Prune.antt =====
-- `prune` of dag.rs takes away exactly the vertices below the height it is given.
use nexus_chain.Base.{
  ℕ, zero, suc, ◌+◌, ◌<◌, ◌≤◌, ◌≡◌, refl, sym, ◌∙◌, ap, ◌&&◌, List, [], ◌∷◌, none, some, inl, inr,
  arith, if◌then◌else◌, ◌==◌, Bool-cases, ==→eq, length, elem, ltb, leb,
}
use nexus_chain.Base.Map.{Map, lookup, remove}
use nexus_chain.Primitives.Merkle.{Hash}
use nexus_chain.Dag.Vertex.{Vertex}
use nexus_chain.Dag.Graph.{Dag, set_at}
use nexus_chain.Dag.Graph.Invariant.{IsDag}
use nexus_chain.Dag.Graph.Queries.{drop_hashes, prune_heights, prune}

lookup-remove {ℓ} :
    {V : Type ℓ} (j k : ℕ) (m : Map V)
    → lookup j (remove k m) ≡ (if j == k then none else lookup j m)
lookup-remove j k [] = ground arith
lookup-remove j k (e ∷ m) = ground (arith, lookup-remove j k m)

drop_hashes-lookup :
    (hs : List Hash) (d : Dag) (k : Hash)
    → lookup k (drop_hashes hs d).vertices ≡ (if elem k hs then none else lookup k d.vertices)
unfolding drop_hashes
drop_hashes-lookup [] d k = refl
drop_hashes-lookup (h ∷ hs) d k = ground (
  arith,
  lookup-remove k h d.vertices,
  drop_hashes-lookup hs
      (record d {
        vertices = remove h d.vertices;
        status = remove h d.status;
        children = remove h d.children;
      })
      k,
)

drop_hashes-by_height : (hs : List Hash) (d : Dag) → (drop_hashes hs d).by_height ≡ d.by_height
unfolding drop_hashes
drop_hashes-by_height [] d = refl
drop_hashes-by_height (h ∷ hs) d = drop_hashes-by_height hs (record d {
  vertices = remove h d.vertices;
  status = remove h d.status;
  children = remove h d.children;
})

-- Every height from `j` up lists the hash `k` exactly when it is its height `h`.
abbrev Listed : Hash → ℕ → ℕ → Map (List Hash) → Type 0
Listed k h j by_height = (i : ℕ) → j ≤ i → elem k (set_at i by_height) ≡ (i == h)

prune_heights-lookup :
    (n j pruned : ℕ) (d : Dag) (k : Hash) (h : ℕ)
    → Listed k h j d.by_height
    → lookup k (prune_heights n j pruned d).1.vertices
      ≡ (if leb j h && ltb h (j + n) then none else lookup k d.vertices)
unfolding prune_heights
prune_heights-lookup zero j pruned d k h l = ground arith
prune_heights-lookup (suc n) j pruned d k h l =
    let hashes = set_at j d.by_height in
    let opened = record d { by_height = remove j d.by_height } in
    let rest : Listed k h (j + 1) (drop_hashes hashes opened).by_height = λ i le.
      ap (λ m. elem k (set_at i m)) (drop_hashes-by_height hashes opened)
      ∙ ground (arith, lookup-remove i j d.by_height, l i (omega arith)) in
    ground (
      arith,
      prune_heights-lookup n (j + 1) (pruned + length hashes) (drop_hashes hashes opened) k h rest,
      drop_hashes-lookup hashes opened k,
      l j (omega arith),
    )

-- In a graph that keeps the invariant, each vertex is listed at its height alone.
IsDag-Listed :
    (origin : Hash → List Hash) (d : Dag) (k : Hash) (v : Vertex)
    → IsDag origin d
    → lookup k d.vertices ≡ some v
    → Listed k v.height 0 d.by_height
IsDag-Listed origin d k v i there n le = elim (Bool-cases (elem k (set_at n d.by_height))) [
  | inl at ↦ ground (arith, i.0.listed_only k n at)
  | inr out ↦ elim (Bool-cases (n == v.height)) [
    | inl same ↦ ground (arith, i.0.listed k v there, ==→eq n v.height same)
    | inr other ↦ out ∙ sym other
  ]
]

-- In a graph that keeps the invariant, and for a height below the finalized one, `prune` takes away
-- every vertex below the height it is given and leaves every other one as it was.
pub prune-lookup :
    (origin : Hash → List Hash) (d : Dag) (keep : ℕ) (k : Hash) (v : Vertex)
    → IsDag origin d
    → keep < d.finalized_height
    → lookup k d.vertices ≡ some v
    → lookup k (prune d keep).1.vertices ≡ (if ltb v.height keep then none else some v)
unfolding prune
prune-lookup origin d keep k v i below there =
    ground (arith, prune_heights-lookup keep 0 0 d k v.height (IsDag-Listed origin d k v i there))
