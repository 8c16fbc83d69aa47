-- ===== src/Dag/Graph/Steps.antt =====
-- `insert_vertex`, `add_vertex` and the runs of calls of dag.rs keep the invariant.
use nexus_chain.Base.{
  ℕ, zero, suc, ◌≡◌, refl, sym, ◌∙◌, ap, true, List, [], ◌∷◌, none, some, ok, err, inl, inr, arith,
  ◌==◌, Bool-cases, Option-cases, List-cases, Result-cases, ==→eq,
}
use nexus_chain.Base.Map.{
  Map, lookup, insert, remove, contains_key, lookup-insert, lookup-remove_ne, lookup-remove_self,
}
use nexus_chain.Primitives.Merkle.{Hash}
use nexus_chain.Primitives.Signature.{Secp}
use nexus_chain.Dag.Vertex.{Vertex, confirmed, verify_structure}
use nexus_chain.Dag.Graph.{
  Dag, Outcome, and_then, set_at, expected_height, missing_of, store, retry, process_one,
  verify_timestamp, process_waiting, insert_vertex, add_vertex, insert_fuel,
}
use nexus_chain.Dag.Graph.Store.{link_parents-keeps}
use nexus_chain.Dag.Graph.Invariant.{IsNamed, IsDag, store-IsView}

module _ (origin : Hash → List Hash) where
  abbrev pub Waiting : Map Vertex → Type 0
  Waiting pending = (h : Hash) (v : Vertex) → lookup h pending ≡ some v → IsNamed origin h v

  remove-Waiting : (k : Hash) (m : Map Vertex) → Waiting m → Waiting (remove k m)
  remove-Waiting k m w h v there = elim (Bool-cases (h == k)) [
    | inl same ↦ ground (arith, lookup-remove_self k m, ==→eq h k same)
    | inr other ↦ w h v (sym (lookup-remove_ne h k m (ground arith)) ∙ there)
  ]

  new_entry :
      (k : Hash) (u : Vertex) (m : Map Vertex) (h : Hash) (v : Vertex)
      → (h == k) ≡ true
      → lookup h (insert k u m) ≡ some v
      → v ≡ u
  new_entry k u m h v same there = cc (same, there)

  insert-Waiting :
      (k : Hash) (u : Vertex) (m : Map Vertex)
      → IsNamed origin k u
      → Waiting m
      → Waiting (insert k u m)
  insert-Waiting k u m n w h v there = elim (Bool-cases (h == k)) [
    | inl same ↦ rw (new_entry k u m h v same there, ==→eq h k same) n
    | inr other ↦ w h v (ground (arith, lookup-insert h k u m))
  ]

  -- The pending vertices are none of the writes of `store`.
  pub store-IsDag :
      (d : Dag) (v : Vertex)
      → IsDag origin d
      → v.parents ≡ origin v.hash
      → v.height ≡ expected_height d.vertices v.parents
      → missing_of d.vertices v.parents ≡ []
      → IsDag origin (store d v)
  unfolding store
  store-IsDag d v i o e ready =
      let stored = record d {
        vertices = insert v.hash v d.vertices;
        status = insert v.hash confirmed d.status;
      } in
      let (same_vertices, same_pending, same_deps, same_heights) =
        link_parents-keeps v.hash v.parents stored in
      (
        store-IsView origin d v i.0 o e ready,
        λ h u there. i.1 h u (ap (lookup h) (sym same_pending) ∙ there),
      )

  abbrev pub Kept : Outcome → Type 0
  Kept none = Unit
  Kept (some (_, d)) = IsDag origin d

  and_then-Kept :
      (o : Outcome) (k : Dag → Outcome)
      → Kept o
      → ((d : Dag) → IsDag origin d → Kept (k d))
      → Kept (and_then o k)
  and_then-Kept none k h f = tt
  and_then-Kept (some (err e, d)) k h f = h
  and_then-Kept (some (ok _, d)) k h f = f d h

  module _ (ins : Dag → Vertex → Outcome)
      (keeps : (d : Dag) (v : Vertex)
        → IsDag origin d
        → v.parents ≡ origin v.hash
        → missing_of d.vertices v.parents ≡ []
        → Kept (ins d v)) where
    retry-Kept :
        (d : Dag) (h : Hash) (v : Vertex) (missing : List Hash)
        → IsDag origin d
        → IsNamed origin h v
        → missing_of d.vertices v.parents ≡ missing
        → Kept (retry ins d h v missing)
    retry-Kept d h v [] i n m =
        keeps (record d { pending = remove h d.pending }) v (i.0, remove-Waiting h d.pending i.1)
          (n.1 ∙ ap origin (sym n.0)) m
    retry-Kept d h v (p ∷ ps) i n m =
        (i.0, insert-Waiting h v (remove h d.pending) n (remove-Waiting h d.pending i.1))

    process_one-Kept : (d : Dag) (h : Hash) → IsDag origin d → Kept (process_one ins d h)
    process_one-Kept d h i = elim (Option-cases (lookup h d.pending)) [
      | inl absent ↦ rw (absent, Kept) i
      | inr (v, there) ↦
          rw (there, Kept)
            (retry-Kept d h v (missing_of d.vertices v.parents) i (i.1 h v there) refl)
    ]

    process_waiting-Kept :
        (d : Dag) (hs : List Hash) → IsDag origin d → Kept (process_waiting ins d hs)
    unfolding process_waiting
    process_waiting-Kept d [] i = i
    process_waiting-Kept d (h ∷ hs) i =
        and_then-Kept (process_one ins d h) (λ d'. process_waiting ins d' hs)
          (process_one-Kept d h i) (λ d' i'. process_waiting-Kept d' hs i')

  insert_vertex-Kept :
      (n : ℕ) (d : Dag) (v : Vertex)
      → IsDag origin d
      → v.parents ≡ origin v.hash
      → missing_of d.vertices v.parents ≡ []
      → Kept (insert_vertex n d v)
  unfolding insert_vertex
  insert_vertex-Kept zero d v i o ready = tt
  insert_vertex-Kept (suc n) d v i o ready =
      elim (Bool-cases (v.height == expected_height d.vertices v.parents)) [
        | inl right ↦
            rw (right, Kept)
              (process_waiting-Kept (insert_vertex n)
                (λ d' v' i' o' ready'. insert_vertex-Kept n d' v' i' o' ready')
                (record (store d v) { orphan_deps = remove v.hash (store d v).orphan_deps })
                (set_at v.hash (store d v).orphan_deps)
                (store-IsDag d v i o (==→eq v.height (expected_height d.vertices v.parents) right)
                  ready))
        | inr wrong ↦ rw (wrong, Kept) i
      ]

  pub add_vertex-Kept :
      (c : Secp) (d : Dag) (now : ℕ) (v : Vertex)
      → IsDag origin d
      → v.parents ≡ origin v.hash
      → Kept (add_vertex c d now v)
  unfolding add_vertex
  add_vertex-Kept c d now v i o = elim (Bool-cases (contains_key v.hash d.vertices)) [
    | inl known ↦ rw (known, Kept) i
    | inr new ↦ elim (Result-cases (verify_structure c v)) [
      | inl (e, bad) ↦ rw (new, bad, Kept) i
      | inr (_, good) ↦ elim (Result-cases (verify_timestamp d now v)) [
        | inl (e, late) ↦ rw (new, good, late, Kept) i
        | inr (_, timely) ↦ elim (List-cases (missing_of d.vertices v.parents)) [
          | inl ready ↦
              rw (new, good, timely, ready, Kept) (insert_vertex-Kept (insert_fuel d) d v i o ready)
          | inr (p, ps, waits) ↦
              rw (new, good, timely, waits, Kept)
                (i.0, insert-Waiting v.hash v d.pending (refl, o) i.1)
        ]
      ]
    ]
  ]
