-- ===== src/Dag/Graph/Invariant.antt =====
-- The invariant of the graph of dag.rs: what `insert_vertex` and `add_vertex` keep true of the maps.
use nexus_chain.Base.{
  ℕ, ◌≡◌, refl, sym, ◌∙◌, ap, true, false, ◌&&◌, List, [], some, ◌⊎◌, inl, inr, arith,
  if◌then◌else◌, ◌==◌, Bool-cases, Option-cases, ==→eq, elem,
}
use nexus_chain.Base.Map.{Map, lookup, insert, contains_key, lookup-insert}
use nexus_chain.Primitives.Merkle.{Hash}
use nexus_chain.Dag.Vertex.{Vertex, confirmed}
use nexus_chain.Dag.Graph.{Dag, set_at, height_at, expected_height, missing_of, link_parents, store}
use nexus_chain.Dag.Graph.Store.{
  elem-set_insert, elem-add_at, link_parents-keeps, link_parents-tips, link_parents-children,
  missing_none, expected_height-same,
}

-- The parameter `origin` says which parents a hash stands for: two vertices with one hash have the
-- same parents, as long as the hash function has no collision.
module _ (origin : Hash → List Hash) where
  abbrev pub IsNamed : Hash → Vertex → Type 0
  IsNamed h v = (v.hash ≡ h) × (v.parents ≡ origin h)

  -- A view is the four maps that `insert_vertex` writes. Every vertex stands under its hash, its
  -- parents are there, its height is one more than theirs, it is listed at its height and there
  -- only, and it is a child of exactly its parents; a tip is a vertex, and a vertex is a tip or the parent of one.
  pub record IsView (vertices : Map Vertex) (children : Map (List Hash)) (tips : List Hash)
      (by_height : Map (List Hash)) : Type 0 where
    pub named : (h : Hash) (v : Vertex) → lookup h vertices ≡ some v → IsNamed h v
    pub present :
        (h : Hash) (v : Vertex) (p : Hash)
        → lookup h vertices ≡ some v
        → elem p v.parents ≡ true
        → contains_key p vertices ≡ true
    pub heights :
        (h : Hash) (v : Vertex)
        → lookup h vertices ≡ some v
        → v.height ≡ expected_height vertices v.parents
    pub listed :
        (h : Hash) (v : Vertex)
        → lookup h vertices ≡ some v
        → elem h (set_at v.height by_height) ≡ true
    pub listed_only :
        (h : Hash) (n : ℕ) → elem h (set_at n by_height) ≡ true → height_at vertices h ≡ some n
    pub tips_known : (h : Hash) → elem h tips ≡ true → contains_key h vertices ≡ true
    pub covered :
        (h : Hash)
        → contains_key h vertices ≡ true
        → elem h tips ≡ false
        → (k : Hash) × (u : Vertex) × (lookup k vertices ≡ some u) × (elem h u.parents ≡ true)
    pub child :
        (h : Hash) (v : Vertex) (p : Hash)
        → lookup h vertices ≡ some v
        → elem p v.parents ≡ true
        → elem h (set_at p children) ≡ true
    pub child_only :
        (h p : Hash)
        → elem h (set_at p children) ≡ true
        → (v : Vertex) × (lookup h vertices ≡ some v) × (elem p v.parents ≡ true)

  abbrev pub IsDag : Dag → Type 0
  IsDag d =
      IsView d.vertices d.children d.tips d.by_height
      × ((h : Hash) (v : Vertex) → lookup h d.pending ≡ some v → IsNamed h v)

  -- What a call that stores `v` leaves in the four maps, entry by entry.
  module _ (m : Map Vertex) (children : Map (List Hash)) (tips : List Hash)
      (by_height : Map (List Hash)) (m' : Map Vertex) (children' : Map (List Hash))
      (tips' : List Hash) (by_height' : Map (List Hash)) (v : Vertex)
      (i : IsView m children tips by_height) (o : v.parents ≡ origin v.hash)
      (e : v.height ≡ expected_height m v.parents) (ready : missing_of m v.parents ≡ [])
      (hm : (k : Hash) → lookup k m' ≡ (if k == v.hash then some v else lookup k m))
      (hc : (k q : Hash)
        → elem k (set_at q children')
          ≡ (if (elem q v.parents) && (k == v.hash) then true else elem k (set_at q children)))
      (ht : (k : Hash)
        → elem k tips'
          ≡ (if k == v.hash then true else if elem k v.parents then false else elem k tips))
      (hb : (k : Hash) (n : ℕ)
        → elem k (set_at n by_height')
          ≡ (if (n == v.height) && (k == v.hash) then true else elem k (set_at n by_height))) where
    -- A vertex that stood under the hash had the same parents and the same height.
    same_parents : (u : Vertex) → lookup v.hash m ≡ some u → u.parents ≡ v.parents
    same_parents u there = (i.named v.hash u there).1 ∙ sym o

    same_height : (u : Vertex) → lookup v.hash m ≡ some u → u.height ≡ v.height
    same_height u there =
        i.heights v.hash u there ∙ ap (expected_height m) (same_parents u there) ∙ sym e

    -- So no height changes.
    height_at-stored : (p : Hash) → contains_key p m ≡ true → height_at m p ≡ height_at m' p
    height_at-stored p c = elim (Option-cases (lookup p m)) [
      | inl absent ↦ ground arith
      | inr (u, there) ↦ elim (Bool-cases (p == v.hash)) [
        | inl same ↦
            ground (
              arith,
              hm p,
              same_height u (ap (λ k. lookup k m) (sym (==→eq p v.hash same)) ∙ there),
            )
        | inr other ↦ ground (arith, hm p)
      ]
    ]

    contains_key-stored : (p : Hash) → contains_key p m ≡ true → contains_key p m' ≡ true
    contains_key-stored p c = ground (arith, hm p)

    expected_height-stored :
        (ps : List Hash)
        → ((p : Hash) → elem p ps ≡ true → contains_key p m ≡ true)
        → expected_height m ps ≡ expected_height m' ps
    expected_height-stored ps c = expected_height-same m m' ps (λ p h. height_at-stored p (c p h))

    -- A stored vertex is the new one or was there before.
    stored-cases :
        (h : Hash) (u : Vertex)
        → lookup h m' ≡ some u
        → ((h ≡ v.hash) × (u ≡ v)) ⊎ (lookup h m ≡ some u)
    stored-cases h u there = elim (Bool-cases (h == v.hash)) [
      | inl same ↦ inl (==→eq h v.hash same, cc (hm h, same, there))
      | inr other ↦ inr (cc (hm h, other, there))
    ]

    IsNamed-stored : (h : Hash) (u : Vertex) → lookup h m' ≡ some u → IsNamed h u
    IsNamed-stored h u there = elim (stored-cases h u there) [
      | inl (a, b) ↦ rw (a, b) (refl, o)
      | inr old ↦ i.named h u old
    ]

    old_parent : (p : Hash) → elem p v.parents ≡ true → contains_key p m ≡ true
    old_parent p h = missing_none m v.parents p ready h

    parent-stored :
        (h : Hash) (u : Vertex) (p : Hash)
        → lookup h m' ≡ some u
        → elem p u.parents ≡ true
        → contains_key p m ≡ true
    parent-stored h u p there q = elim (stored-cases h u there) [
      | inl (a, b) ↦ old_parent p (ap (λ w. elem p w.parents) (sym b) ∙ q)
      | inr old ↦ i.present h u p old q
    ]

    heights-stored :
        (h : Hash) (u : Vertex) → lookup h m' ≡ some u → u.height ≡ expected_height m' u.parents
    heights-stored h u there = elim (stored-cases h u there) [
      | inl (a, b) ↦
          ap (λ w. w.height) b
          ∙ e
          ∙ expected_height-stored v.parents old_parent
          ∙ ap (λ w. expected_height m' w.parents) (sym b)
      | inr old ↦
          i.heights h u old ∙ expected_height-stored u.parents (λ p q. i.present h u p old q)
    ]

    listed-stored :
        (h : Hash) (u : Vertex) → lookup h m' ≡ some u → elem h (set_at u.height by_height') ≡ true
    listed-stored h u there = elim (stored-cases h u there) [
      | inl (a, b) ↦ rw b (ground (arith, hb h v.height, a))
      | inr old ↦ ground (arith, hb h u.height, i.listed h u old)
    ]

    listed_only-stored :
        (h : Hash) (n : ℕ) → elem h (set_at n by_height') ≡ true → height_at m' h ≡ some n
    listed_only-stored h n q = elim (Bool-cases (h == v.hash)) [
      | inl same ↦ elim (Option-cases (lookup h m)) [
        | inl absent ↦ ground (arith, hm h, hb h n, i.listed_only h n)
        | inr (u, there) ↦ ground (
          arith,
          hm h,
          hb h n,
          i.listed_only h n,
          same_height u (ap (λ k. lookup k m) (sym (==→eq h v.hash same)) ∙ there),
        )
      ]
      | inr other ↦ ground (arith, hm h, hb h n, i.listed_only h n)
    ]

    tips_known-stored : (h : Hash) → elem h tips' ≡ true → contains_key h m' ≡ true
    tips_known-stored h q = ground (arith, ht h, hm h, i.tips_known h)

    lookup-stored : lookup v.hash m' ≡ some v
    lookup-stored = ground (arith, hm v.hash)

    -- The old vertex that had a child keeps it, even when the child is stored anew.
    kept :
        (k : Hash) (u : Vertex)
        → lookup k m ≡ some u
        → (w : Vertex) × (lookup k m' ≡ some w) × (w.parents ≡ u.parents)
    kept k u there = elim (Bool-cases (k == v.hash)) [
      | inl same ↦ (
        v,
        ground (arith, hm k),
        sym (same_parents u (ap (λ j. lookup j m) (sym (==→eq k v.hash same)) ∙ there)),
      )
      | inr other ↦ (u, ground (arith, hm k), refl)
    ]

    covered-stored :
        (h : Hash)
        → contains_key h m' ≡ true
        → elem h tips' ≡ false
        → (k : Hash) × (u : Vertex) × (lookup k m' ≡ some u) × (elem h u.parents ≡ true)
    covered-stored h c q = elim (Bool-cases (elem h v.parents)) [
      | inl parent ↦ (v.hash, v, lookup-stored, parent)
      | inr other ↦
          let (k, u, there, at) = i.covered h (ground (arith, hm h, ht h)) (ground (arith, ht h)) in
          let (w, there', same) = kept k u there in (k, w, there', ap (elem h) same ∙ at)
    ]

    child-stored :
        (h : Hash) (u : Vertex) (p : Hash)
        → lookup h m' ≡ some u
        → elem p u.parents ≡ true
        → elem h (set_at p children') ≡ true
    child-stored h u p there q = elim (stored-cases h u there) [
      | inl (a, b) ↦ ground (arith, hc h p, a, ap (λ w. elem p w.parents) (sym b) ∙ q)
      | inr old ↦ ground (arith, hc h p, i.child h u p old q)
    ]

    child_only-stored :
        (h p : Hash)
        → elem h (set_at p children') ≡ true
        → (u : Vertex) × (lookup h m' ≡ some u) × (elem p u.parents ≡ true)
    child_only-stored h p q = elim (Bool-cases (elem p v.parents && (h == v.hash))) [
      | inl new ↦ (v, ground (arith, hm h), ground arith)
      | inr other ↦
          let (u, there, at) = i.child_only h p (ground (arith, hc h p)) in
          let (w, there', same) = kept h u there in (w, there', ap (elem p) same ∙ at)
    ]

    pub IsView-stored : IsView m' children' tips' by_height'
    IsView-stored = record {
      named = IsNamed-stored;
      present = λ h u p there q. contains_key-stored p (parent-stored h u p there q);
      heights = heights-stored;
      listed = listed-stored;
      listed_only = listed_only-stored;
      tips_known = tips_known-stored;
      covered = covered-stored;
      child = child-stored;
      child_only = child_only-stored;
    }

  pub store-IsView :
      (d : Dag) (v : Vertex)
      → IsView d.vertices d.children d.tips d.by_height
      → v.parents ≡ origin v.hash
      → v.height ≡ expected_height d.vertices v.parents
      → missing_of d.vertices v.parents ≡ []
      → IsView (store d v).vertices (store d v).children (store d v).tips (store d v).by_height
  unfolding store
  store-IsView d v i o e ready =
      let stored = record d {
        vertices = insert v.hash v d.vertices;
        status = insert v.hash confirmed d.status;
      } in
      let (same_vertices, same_pending, same_deps, same_heights) =
        link_parents-keeps v.hash v.parents stored in
      IsView-stored d.vertices d.children d.tips d.by_height (store d v).vertices
        (store d v).children (store d v).tips (store d v).by_height v i o e ready
        (λ k. ap (lookup k) same_vertices ∙ lookup-insert k v.hash v d.vertices)
        (λ k q. link_parents-children v.hash v.parents stored k q)
        (λ k.
          elem-set_insert k v.hash (link_parents v.hash v.parents stored).tips
          ∙ ap (λ b. if k == v.hash then true else b) (link_parents-tips v.hash v.parents stored k))
        (λ k n.
          elem-add_at k n v.height v.hash (link_parents v.hash v.parents stored).by_height
          ∙ ap (λ m. if (n == v.height) && (k == v.hash) then true else elem k (set_at n m))
              same_heights)
