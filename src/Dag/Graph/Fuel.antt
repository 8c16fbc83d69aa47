-- ===== src/Dag/Graph/Fuel.antt =====
-- The nested calls of `insert_vertex` and `process_orphans` in dag.rs end: each takes a vertex out
-- of `pending`.
use nexus_chain.Base.{
  ℕ, zero, suc, ◌+◌, ◌≤◌, ◌<◌, ◌≡◌, refl, ap, List, [], ◌∷◌, some, Result, ok, err, inl, inr, arith,
  ◌==◌, Bool-cases, Option-cases, List-cases, Result-cases, length,
}
use nexus_chain.Base.Map.{Map, lookup, insert, remove, contains_key}
use nexus_chain.Primitives.Errors.{NexusError}
use nexus_chain.Primitives.Merkle.{Hash}
use nexus_chain.Primitives.Signature.{Secp}
use nexus_chain.Dag.Vertex.{Vertex, confirmed, verify_structure}
use nexus_chain.Dag.Graph.{
  Dag, Outcome, and_then, set_at, expected_height, missing_of, store, retry, process_one,
  process_waiting, insert_vertex, insert_fuel, verify_timestamp, add_vertex,
}
use nexus_chain.Dag.Graph.Store.{link_parents-keeps}

pub length-remove {ℓ} : {V : Type ℓ} (k : ℕ) (m : Map V) → length (remove k m) ≤ length m
length-remove k [] = omega arith
length-remove k (e ∷ m) = ground (arith, length-remove k m)

pub length-remove_present {ℓ} :
    {V : Type ℓ} (k : ℕ) (v : V) (m : Map V) → lookup k m ≡ some v → length (remove k m) < length m
length-remove_present k v [] h = cc
length-remove_present k v (e ∷ m) h = ground (arith, length-remove_present k v m, length-remove k m)

-- The call returned, and `pending` has at most `n` entries.
abbrev pub Returned : ℕ → Outcome → Type 0
Returned n o = (r : Result NexusError Unit) × (d : Dag) × (o ≡ some (r, d)) × (length d.pending ≤ n)

and_then-Returned :
    (n : ℕ) (o : Outcome) (k : Dag → Outcome)
    → Returned n o
    → ((d : Dag) → length d.pending ≤ n → Returned n (k d))
    → Returned n (and_then o k)
and_then-Returned n o k (ok u, d, e, le) f = rw e (f d le)
and_then-Returned n o k (err x, d, e, le) f = rw e (err x, d, refl, le)

weaken : (m k : ℕ) (o : Outcome) → m ≤ k → Returned m o → Returned k o
weaken m k o le (r, d, e, l) = (r, d, e, omega arith)

module _ (n : ℕ) (ins : Dag → Vertex → Outcome)
    (returns : (d : Dag) (v : Vertex)
      → length d.pending < n
      → Returned (length d.pending) (ins d v)) where
  process_one-Returned :
      (d : Dag) (h : Hash)
      → length d.pending ≤ n
      → Returned (length d.pending) (process_one ins d h)
  process_one-Returned d h le = elim (Option-cases (lookup h d.pending)) [
    | inl absent ↦ rw (absent, process_one) (ok tt, d, refl, omega arith)
    | inr (v, there) ↦ rw (there, process_one) (retried v there (missing_of d.vertices v.parents))
  ]
    where
      retried :
          (v : Vertex)
          → lookup h d.pending ≡ some v
          → (missing : List Hash) → Returned (length d.pending) (retry ins d h v missing)
      retried v there [] =
          weaken (length (remove h d.pending)) (length d.pending)
            (ins (record d { pending = remove h d.pending }) v) (length-remove h d.pending)
            (returns (record d { pending = remove h d.pending }) v
              (omega (arith, length-remove_present h v d.pending there)))
      retried v there (p ∷ ps) = (
        ok tt,
        _,
        refl,
        omega (
          arith,
          length-remove_present h v d.pending there,
          length-remove h (remove h d.pending),
        ),
      )

  process_waiting-Returned :
      (d : Dag) (hs : List Hash) (m : ℕ)
      → length d.pending ≤ m
      → m ≤ n
      → Returned m (process_waiting ins d hs)
  unfolding process_waiting
  process_waiting-Returned d [] m le lt = (ok tt, d, refl, le)
  process_waiting-Returned d (h ∷ hs) m le lt =
      and_then-Returned m (process_one ins d h) (λ d'. process_waiting ins d' hs)
        (weaken (length d.pending) m (process_one ins d h) le
          (process_one-Returned d h (omega arith)))
        (λ d' le'. process_waiting-Returned d' hs m le' lt)

store-pending : (d : Dag) (v : Vertex) → (store d v).pending ≡ d.pending
unfolding store
store-pending d v =
    (link_parents-keeps v.hash v.parents (record d {
      vertices = insert v.hash v d.vertices;
      status = insert v.hash confirmed d.status;
    })).1

pub insert_vertex-Returned :
    (n : ℕ) (d : Dag) (v : Vertex)
    → length d.pending < n
    → Returned (length d.pending) (insert_vertex n d v)
unfolding insert_vertex
insert_vertex-Returned zero d v lt = ground arith
insert_vertex-Returned (suc n) d v lt =
    elim (Bool-cases (v.height == expected_height d.vertices v.parents)) [
      | inl right ↦ rw right (
          process_waiting-Returned n (insert_vertex n)
            (λ d' v' lt'. insert_vertex-Returned n d' v' lt')
            (record (store d v) { orphan_deps = remove v.hash (store d v).orphan_deps })
            (set_at v.hash (store d v).orphan_deps) (length d.pending)
            (omega (arith, ap length (store-pending d v))) (omega arith))
      | inr wrong ↦ rw wrong (err _, d, refl, omega arith)
    ]

-- Each call of `add_vertex` returns: the nesting of `insert_vertex` and `process_orphans` ends. It
-- leaves at most one more waiting vertex.
pub add_vertex-returns :
    (c : Secp) (d : Dag) (now : ℕ) (v : Vertex)
    → (r : Result NexusError Unit) × (d' : Dag) × (add_vertex c d now v ≡ some (r, d'))
      × (length d'.pending ≤ length d.pending + 1)
unfolding add_vertex
add_vertex-returns c d now v = elim (Bool-cases (contains_key v.hash d.vertices)) [
  | inl known ↦ rw known (ok tt, d, refl, omega arith)
  | inr new ↦ elim (Result-cases (verify_structure c v)) [
    | inl (e, bad) ↦ rw (new, bad) (err e, d, refl, omega arith)
    | inr (_, good) ↦ elim (Result-cases (verify_timestamp d now v)) [
      | inl (e, late) ↦ rw (new, good, late) (err e, d, refl, omega arith)
      | inr (_, timely) ↦ elim (List-cases (missing_of d.vertices v.parents)) [
        | inl ready ↦
            rw (new, good, timely, ready)
              (weaken (length d.pending) (length d.pending + 1) (insert_vertex (insert_fuel d) d v)
                (omega arith) (insert_vertex-Returned (insert_fuel d) d v (omega arith)))
        | inr (p, ps, waits) ↦
            rw (new, good, timely, waits)
              (ok tt, _, refl, omega (arith, length-remove v.hash d.pending))
      ]
    ]
  ]
]
