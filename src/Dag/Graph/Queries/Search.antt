-- ===== src/Dag/Graph/Queries/Search.antt =====
-- `is_ancestor` of dag.rs answers, and its answer is reachability by parent links.
use nexus_chain.Base.{
  ℕ, zero, suc, ◌+◌, ◌<◌, ◌≤◌, ◌≡◌, refl, sym, ◌∙◌, ap, Bool, true, false, not, ◌&&◌, ◌||◌, List,
  [], ◌∷◌, ◌++◌, map, some, inl, inr, ◌↔◌, arith, if◌then◌else◌, ◌==◌, Bool-cases, ==→eq, ==-refl,
  elem, elem-append, select, length, sum, length-append, length-select,
}
use mathlib.Core.Path.{subst}
use nexus_chain.Base.Map.{Map, values}
use nexus_chain.Primitives.Merkle.{Hash}
use nexus_chain.Dag.Vertex.{Vertex}
use nexus_chain.Dag.Graph.{Dag}
use nexus_chain.Dag.Graph.Queries.{parents_of, unseen, ancestor_loop, search_fuel, is_ancestor}

elem-select :
    (k : Hash) (f : Hash → Bool) (xs : List Hash) → elem k (select f xs) ≡ (elem k xs && f k)
elem-select k f [] = refl
elem-select k f (x ∷ xs) = elim (Bool-cases (k == x)) [
  | inl same ↦ ground (arith, elem-select k f xs, ap f (==→eq k x same))
  | inr other ↦ ground (arith, elem-select k f xs)
]

module _ (m : Map Vertex) where
  -- `Descends a b`: `a` is `b`, or reached from `b` by parent links of stored vertices.
  pub data Descends : Hash → Hash → Type 0 where
    here : {a : Hash} → Descends a a
    up : {a b : Hash} (p : Hash) → elem p (parents_of m b) ≡ true → Descends a p → Descends a b

  -- The parent links of the vertices that are not seen yet.
  abbrev links : List Hash → Map Vertex → ℕ
  links visited [] = 0
  links visited (e ∷ es) = (if elem e.0 visited then 0 else length e.1.parents) + links visited es

  links-all : (es : Map Vertex) → links [] es ≡ sum (map (λ v. length v.parents) (values es))
  links-all [] = refl
  links-all (e ∷ es) = ap (λ n. length e.1.parents + n) (links-all es)

  links-fewer :
      (k : Hash) (visited : List Hash) (es : Map Vertex) → links (k ∷ visited) es ≤ links visited es
  links-fewer k visited [] = omega arith
  links-fewer k visited (e ∷ es) = ground (arith, links-fewer k visited es)

  links-visit :
      (k : Hash) (visited : List Hash) (es : Map Vertex)
      → elem k visited ≡ false
      → length (parents_of es k) + links (k ∷ visited) es ≤ links visited es
  links-visit k visited [] new = omega arith
  links-visit k visited (e ∷ es) new =
      ground (arith, links-visit k visited es, links-fewer k visited es)

  ancestor_loop-returns :
      (a : Hash) (fuel : ℕ) (queue visited : List Hash)
      → length queue + links visited m < fuel
      → (b : Bool) × (ancestor_loop m a fuel queue visited ≡ some b)
  unfolding ancestor_loop
  ancestor_loop-returns a zero queue visited lt = ground arith
  ancestor_loop-returns a (suc fuel) [] visited lt = (false, refl)
  ancestor_loop-returns a (suc fuel) (current ∷ queue) visited lt =
      elim (Bool-cases (current == a)) [
        | inl found ↦ (true, rw (found, if◌then◌else◌) refl)
        | inr other ↦ elim (Bool-cases (elem current visited)) [
          | inl seen ↦ rw (other, seen) (ancestor_loop-returns a fuel queue visited (omega arith))
          | inr new ↦
              rw (other, new)
                (ancestor_loop-returns a fuel
                  (queue ++ unseen (current ∷ visited) (parents_of m current)) (current ∷ visited)
                  (omega (
                    arith,
                    links-visit current visited m new,
                    length-append queue (unseen (current ∷ visited) (parents_of m current)),
                    length-select (λ h. not (elem h (current ∷ visited))) (parents_of m current),
                  )))
        ]
      ]

  -- An answer `true` comes from a hash in the queue that descends from the one looked for.
  ancestor_loop_sound :
      (a : Hash) (fuel : ℕ) (queue visited : List Hash)
      → ancestor_loop m a fuel queue visited ≡ some true
      → (q : Hash) × (elem q queue ≡ true) × Descends a q
  unfolding ancestor_loop
  ancestor_loop_sound a zero queue visited e = cc
  ancestor_loop_sound a (suc fuel) [] visited e = cc
  ancestor_loop_sound a (suc fuel) (current ∷ queue) visited e = elim (Bool-cases (current == a)) [
    | inl found ↦
        (current, ground arith, subst (λ x. Descends a x) (sym (==→eq current a found)) here)
    | inr other ↦ elim (Bool-cases (elem current visited)) [
      | inl seen ↦
          let (q, at, down) = ancestor_loop_sound a fuel queue visited (ground arith) in
          (q, ground arith, down)
      | inr new ↦
          let (q, at, down) =
            ancestor_loop_sound a fuel (queue ++ unseen (current ∷ visited) (parents_of m current))
              (current ∷ visited) (ground arith) in
          elim (Bool-cases (elem q queue)) [
            | inl old ↦ (q, ground arith, down)
            | inr pushed ↦ (
              current,
              ground arith,
              up q
                  (ground (
                    arith,
                    elem-append q queue (unseen (current ∷ visited) (parents_of m current)),
                    elem-select q (λ h. not (elem h (current ∷ visited))) (parents_of m current),
                  ))
                  down,
            )
          ]
    ]
  ]

  -- The parents of what is visited are visited or in the queue.
  abbrev Closed : List Hash → List Hash → Type 0
  Closed queue visited =
      (x p : Hash)
      → elem x visited ≡ true
      → elem p (parents_of m x) ≡ true
      → (elem p visited || elem p queue) ≡ true

  unreached :
      (a : Hash) (visited : List Hash) (x : Hash)
      → Closed [] visited
      → elem a visited ≡ false
      → elem x visited ≡ true
      → ¬ Descends a x
  unreached a visited x closed new at here = cc
  unreached a visited x closed new at (up p link down) =
      unreached a visited p closed new (ground (arith, closed x p at link)) down

  drop_seen :
      (p current : Hash) (queue visited : List Hash)
      → elem current visited ≡ true
      → (elem p visited || elem p (current ∷ queue)) ≡ true
      → (elem p visited || elem p queue) ≡ true
  drop_seen p current queue visited seen at = elim (Bool-cases (p == current)) [
    | inl same ↦ ground (arith, ap (λ k. elem k visited) (==→eq p current same) ∙ seen)
    | inr other ↦ ground arith
  ]

  push :
      (p current : Hash) (queue visited more : List Hash)
      → (elem p visited || elem p (current ∷ queue)) ≡ true
      → (elem p (current ∷ visited) || elem p (queue ++ more)) ≡ true
  push p current queue visited more at = ground (arith, elem-append p queue more)

  Closed-visit :
      (current : Hash) (queue visited : List Hash)
      → Closed (current ∷ queue) visited
      → Closed (queue ++ unseen (current ∷ visited) (parents_of m current)) (current ∷ visited)
  Closed-visit current queue visited closed y p v l = elim (Bool-cases (y == current)) [
    | inl same ↦
        let link : elem p (parents_of m current) ≡ true =
          ap (λ k. elem p (parents_of m k)) (sym (==→eq y current same)) ∙ l in
        ground (
          arith,
          elem-append p queue (unseen (current ∷ visited) (parents_of m current)),
          elem-select p (λ h. not (elem h (current ∷ visited))) (parents_of m current),
          link,
        )
    | inr other ↦
        push p current queue visited (unseen (current ∷ visited) (parents_of m current))
          (closed y p (ground arith) l)
  ]

  ancestor_loop_complete :
      (a : Hash) (fuel : ℕ) (queue visited : List Hash) (x : Hash)
      → ancestor_loop m a fuel queue visited ≡ some false
      → Closed queue visited
      → elem a visited ≡ false
      → (elem x visited || elem x queue) ≡ true
      → ¬ Descends a x
  unfolding ancestor_loop
  ancestor_loop_complete a zero queue visited x e closed out at = cc
  ancestor_loop_complete a (suc fuel) [] visited x e closed out at =
      unreached a visited x closed out (ground arith)
  ancestor_loop_complete a (suc fuel) (current ∷ queue) visited x e closed out at =
      elim (Bool-cases (current == a)) [
        | inl found ↦ ground arith
        | inr other ↦ elim (Bool-cases (elem current visited)) [
          | inl seen ↦
              ancestor_loop_complete a fuel queue visited x (ground arith)
                (λ y p v l. drop_seen p current queue visited seen (closed y p v l)) out
                (drop_seen x current queue visited seen at)
          | inr new ↦
              ancestor_loop_complete a fuel
                (queue ++ unseen (current ∷ visited) (parents_of m current)) (current ∷ visited) x
                (ground arith) (Closed-visit current queue visited closed) (ground arith)
                (push x current queue visited (unseen (current ∷ visited) (parents_of m current))
                  at)
        ]
      ]

-- `is_ancestor` always answers, and it answers `true` exactly for the vertex itself and for those
-- that parent links of stored vertices reach.
pub is_ancestor_iff :
    (d : Dag) (a b : Hash)
    → (r : Bool) × (is_ancestor d a b ≡ some r) × ((r ≡ true) ↔ Descends d.vertices a b)
unfolding is_ancestor
is_ancestor_iff d a b =
    let (r, e) =
      ancestor_loop-returns d.vertices a (search_fuel d.vertices) (b ∷ []) []
        (omega (arith, links-all d.vertices d.vertices)) in
    (r, e, answer r e)
  where
    answer :
        (r : Bool)
        → ancestor_loop d.vertices a (search_fuel d.vertices) (b ∷ []) [] ≡ some r
        → (r ≡ true) ↔ Descends d.vertices a b
    answer true e =
        let (q, at, down) =
          ancestor_loop_sound d.vertices a (search_fuel d.vertices) (b ∷ []) [] e in
        (λ _. subst (Descends d.vertices a) (==→eq q b (ground arith)) down, λ _. refl)
    answer false e = (
      λ wrong. ground arith,
      λ down. absurd (
          ancestor_loop_complete d.vertices a (search_fuel d.vertices) (b ∷ []) [] b e
            (λ x p at link. ground arith) refl (ground (arith, ==-refl b)) down),
    )
