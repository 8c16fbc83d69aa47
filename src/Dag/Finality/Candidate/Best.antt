-- ===== src/Dag/Finality/Candidate/Best.antt =====
-- The candidate that `find_best_candidate` of finality.rs gives is the highest common ancestor of
-- the tips.
use nexus_chain.Base.{
  ℕ, zero, suc, ◌+◌, ◌-◌, ◌^◌, ◌≤◌, ◌<◌, ◌≡◌, refl, sym, ◌∙◌, Bool, true, false, ◌||◌, List, [],
  ◌∷◌, Option, none, some, inl, inr, ◌⊎◌, ◌↔◌, arith, if◌then◌else◌, ◌==◌, Bool-cases, ==→eq,
  ==-refl, elem, add64,
}
use mathlib.Core.Path.{subst}
use nexus_chain.Base.Map.{lookup}
use nexus_chain.Primitives.Merkle.{Hash}
use nexus_chain.Dag.Vertex.{Vertex, no_hashes}
use nexus_chain.Dag.Graph.{Dag, height_at}
use nexus_chain.Dag.Graph.Store.{no_hashes-empty}
use nexus_chain.Dag.Graph.Invariant.{IsDag}
use nexus_chain.Dag.Graph.Queries.{get_vertices_at_height, latest_height, is_ancestor}
use nexus_chain.Dag.Graph.Queries.Latest.{IsSmall, latest_height_lem}
use nexus_chain.Dag.Graph.Queries.Search.{Descends, here, is_ancestor_iff}
use nexus_chain.Dag.Finality.{FinalityGadget}
use nexus_chain.Dag.Finality.Candidate.{
  is_common_ancestor, first_common, candidate_from, find_best_candidate,
}

module _ (d : Dag) where
  -- Each of the tips is `h` or reaches it by parent links.
  abbrev pub Common : List Hash → Hash → Type 0
  Common tips h = (tip : Hash) → elem tip tips ≡ true → Descends d.vertices h tip

  is_common_ancestor-step :
      (h tip : Hash) (tips : List Hash) (a : Bool)
      → is_ancestor d h tip ≡ some a
      → is_common_ancestor d h (tip ∷ tips)
        ≡ (if a || tip == h then is_common_ancestor d h tips else some false)
  unfolding is_common_ancestor
  is_common_ancestor-step h tip tips a e = rw (e, is_common_ancestor) refl

  reached_tip :
      (h tip : Hash) (a : Bool)
      → (a ≡ true → Descends d.vertices h tip)
      → (a || tip == h) ≡ true
      → Descends d.vertices h tip
  reached_tip h tip true sound found = sound refl
  reached_tip h tip false sound found = subst (Descends d.vertices h) (sym (==→eq tip h found)) here

  Common-cons :
      (h tip : Hash) (tips : List Hash)
      → Descends d.vertices h tip
      → Common tips h
      → Common (tip ∷ tips) h
  Common-cons h tip tips down all t at = elim (Bool-cases (t == tip)) [
    | inl same ↦ subst (Descends d.vertices h) (sym (==→eq t tip same)) down
    | inr other ↦ all t (ground arith)
  ]

  is_common_ancestor_iff :
      (h : Hash) (tips : List Hash)
      → (r : Bool) × (is_common_ancestor d h tips ≡ some r) × ((r ≡ true) ↔ Common tips h)
  unfolding is_common_ancestor
  is_common_ancestor_iff h [] = (true, refl, (λ _ tip e. ground arith, λ _. refl))
  is_common_ancestor_iff h (tip ∷ tips) =
      let (a, e, (sound, complete)) = is_ancestor_iff d h tip in
      let (r, e', (sound', complete')) = is_common_ancestor_iff h tips in
      elim (Bool-cases (a || tip == h)) [
        | inl found ↦ (
          r,
          is_common_ancestor-step h tip tips a e ∙ rw found e',
          (
            λ q. Common-cons h tip tips (reached_tip h tip a sound found) (sound' q),
            λ all. complete' (λ t at. all t (ground arith)),
          ),
        )
        | inr not_found ↦ (
          false,
          is_common_ancestor-step h tip tips a e ∙ rw not_found refl,
          (
            λ wrong. ground arith,
            λ all. ground (arith, complete (all tip (ground (arith, ==-refl tip)))),
          ),
        )
      ]

  -- What the search of a list of hashes gives: the first common ancestor, or none is one.
  abbrev Found : List Hash → List Hash → Option Hash → Type 0
  Found tips hs none = (h : Hash) → elem h hs ≡ true → ¬ Common tips h
  Found tips hs (some h) = (elem h hs ≡ true) × Common tips h

  Found-cons :
      (tips : List Hash) (h : Hash) (hs : List Hash) (r : Option Hash)
      → ¬ Common tips h
      → Found tips hs r
      → Found tips (h ∷ hs) r
  Found-cons tips h hs none not_it f = λ k at. elim (Bool-cases (k == h)) [
    | inl same ↦ subst (λ x. ¬ Common tips x) (sym (==→eq k h same)) not_it
    | inr other ↦ f k (ground arith)
  ]
  Found-cons tips h hs (some k) not_it (at, common) = (ground arith, common)

  first_common-Found :
      (tips hs : List Hash)
      → (r : Option Hash) × (first_common d tips hs ≡ some r) × Found tips hs r
  unfolding first_common
  first_common-Found tips [] = (none, refl, λ h e. ground arith)
  first_common-Found tips (h ∷ hs) =
      let (b, e, (sound, complete)) = is_common_ancestor_iff h tips in
      let (r, e', f) = first_common-Found tips hs in
      elim (Bool-cases b) [
        | inl common ↦ (
          some h,
          first_common-step b e ∙ rw common refl,
          (ground (arith, ==-refl h), sound common),
        )
        | inr other ↦ (
          r,
          first_common-step b e ∙ rw other e',
          Found-cons tips h hs r (λ common. ground (arith, complete common)) f,
        )
      ]
    where
      first_common-step :
          (b : Bool)
          → is_common_ancestor d h tips ≡ some b
          → first_common d tips (h ∷ hs) ≡ (if b then some (some h) else first_common d tips hs)
      first_common-step b e = rw (e, first_common) refl

  abbrev NoneAt : List Hash → ℕ → Type 0
  NoneAt tips height =
      (h : Hash) → elem h (get_vertices_at_height d height) ≡ true → ¬ Common tips h

  -- What the search of the heights from `low` to `top` gives: a common ancestor with none above it,
  -- or there is none.
  abbrev Best : List Hash → ℕ → ℕ → Option (Hash × ℕ) → Type 0
  Best tips low top none = (height : ℕ) → low ≤ height → height < top → NoneAt tips height
  Best tips low top (some (h, at)) =
      (low ≤ at)
      × (elem h (get_vertices_at_height d at) ≡ true)
      × Common tips h
      × ((height : ℕ) → at < height → height < top → NoneAt tips height)

  Best-up :
      (tips : List Hash) (low n : ℕ) (r : Option (Hash × ℕ))
      → NoneAt tips (low + n)
      → Best tips low (low + n) r
      → Best tips low (low + suc n) r
  Best-up tips low n none not_it f = λ height le lt. elim (Bool-cases (height == low + n)) [
    | inl same ↦ subst (NoneAt tips) (sym (==→eq height (low + n) same)) not_it
    | inr other ↦ f height le (ground arith)
  ]
  Best-up tips low n (some (h, at)) not_it (le, listed, common, above) = (
    le,
    listed,
    common,
    λ height gt lt. elim (Bool-cases (height == low + n)) [
      | inl same ↦ subst (NoneAt tips) (sym (==→eq height (low + n) same)) not_it
      | inr other ↦ above height gt (ground arith)
    ],
  )

  candidate_from-step :
      (tips : List Hash) (low n : ℕ) (o : Option Hash) (r : Option (Hash × ℕ))
      → first_common d tips (get_vertices_at_height d (low + n)) ≡ some o
      → Found tips (get_vertices_at_height d (low + n)) o
      → candidate_from d tips low n ≡ some r
      → Best tips low (low + n) r
      → (r : Option (Hash × ℕ)) × (candidate_from d tips low (suc n) ≡ some r)
        × Best tips low (low + suc n) r
  unfolding candidate_from
  candidate_from-step tips low n (some h) r e (at, common) e' b = (
    some (h, low + n),
    rw (e, candidate_from) refl,
    (omega arith, at, common, λ height gt lt. ground arith),
  )
  candidate_from-step tips low n none r e f e' b =
      (r, rw (e, candidate_from) e', Best-up tips low n r f b)

  candidate_from-Best :
      (tips : List Hash) (low n : ℕ)
      → (r : Option (Hash × ℕ)) × (candidate_from d tips low n ≡ some r) × Best tips low (low + n) r
  unfolding candidate_from
  candidate_from-Best tips low zero = (none, refl, λ height le lt. ground arith)
  candidate_from-Best tips low (suc n) =
      let (o, e, f) = first_common-Found tips (get_vertices_at_height d (low + n)) in
      let (r, e', b) = candidate_from-Best tips low n in candidate_from-step tips low n o r e f e' b

  -- A candidate above `finalized` is a stored common ancestor of all tips, and none is higher;
  -- without a candidate there are no tips, or no stored vertex above `finalized` is one.
  abbrev pub IsBest : ℕ → Option (Hash × ℕ) → Type 0
  IsBest finalized none =
      (d.tips ≡ [])
      ⊎ ((h : Hash) (v : Vertex)
          → lookup h d.vertices ≡ some v
          → finalized < v.height
          → ¬ Common d.tips h)
  IsBest finalized (some (h, at)) =
      (finalized < at)
      × (height_at d.vertices h ≡ some at)
      × Common d.tips h
      × ((k : Hash) (v : Vertex) → lookup k d.vertices ≡ some v → at < v.height → ¬ Common d.tips k)

  module _ (origin : Hash → List Hash) (i : IsDag origin d) (small : IsSmall d.vertices) where
    Best-IsBest :
        (finalized : ℕ) (r : Option (Hash × ℕ)) (top : ℕ)
        → latest_height d < top
        → Best d.tips (finalized + 1) top r
        → IsBest finalized r
    Best-IsBest finalized none top over b = inr (λ h v there higher.
        b v.height (omega arith) (omega (arith, latest_height_lem origin d h v i small there)) h
          (i.0.listed h v there))
    Best-IsBest finalized (some (h, at)) top over (le, listed, common, above) = (
      omega arith,
      i.0.listed_only h at listed,
      common,
      λ k v there higher.
          above v.height higher (omega (arith, latest_height_lem origin d k v i small there)) k
            (i.0.listed k v there),
    )

    -- In a graph that keeps the invariant, with no height at the end of u64, the search for a
    -- candidate ends; what it gives is the highest stored common ancestor of the tips above the
    -- finalized height, and nothing only when there is none or there are no tips.
    pub find_best_candidate-IsBest :
        (g : FinalityGadget)
        → g.state.finalized_height + 1 < 2 ^ 64
        → (r : Option (Hash × ℕ)) × (find_best_candidate g d ≡ some r)
          × IsBest g.state.finalized_height r
    unfolding find_best_candidate
    find_best_candidate-IsBest g room = elim (Bool-cases (no_hashes d.tips)) [
      | inl empty ↦ (none, rw empty refl, inl (no_hashes-empty d.tips empty))
      | inr some_tip ↦
          let low = add64 g.state.finalized_height 1 in
          let above : low ≡ g.state.finalized_height + 1 = omega arith in
          let (r, e, b) = candidate_from-Best d.tips low (latest_height d + 1 - low) in
          (
            r,
            rw some_tip e,
            Best-IsBest g.state.finalized_height r (low + (latest_height d + 1 - low)) (omega arith)
                (subst (λ l. Best d.tips l (low + (latest_height d + 1 - low)) r) above b),
          )
    ]
