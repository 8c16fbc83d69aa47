-- ===== src/Dag/Tips/Valid.antt =====
-- What `validate_parents` of tip_selection.rs accepts.
use nexus_chain.Base.{
  ◌≤◌, ◌≡◌, ◌≢◌, refl, ap, false, ◌||◌, List, [], ◌∷◌, Option, none, some, Result, ok, err, ◌⊎◌,
  inl, inr, ◌↔◌, arith, ◌==◌, ltb, elem, length, All, Bool-cases, Option-cases, Result-cases,
}
use nexus_chain.Primitives.Merkle.{Hash}
use nexus_chain.Dag.Vertex.{
  VertexStatus, pending_status, awaiting_parents, rejected, orphaned, confirmed, finalized,
  max_parents, no_hashes,
}
use nexus_chain.Dag.Graph.{Dag}
use nexus_chain.Dag.Graph.Queries.{get_status}
use nexus_chain.Dag.Graph.Queries.Search.{Descends, is_ancestor_iff}
use nexus_chain.Dag.Graph.Store.{elem-set_insert, no_hashes-empty}
use nexus_chain.Dag.Tips.{
  no_parents, too_many_parents, duplicate_parents, conflicting_parents, TipValidationError, to_set,
  check_one, check_status, conflict_with, check_conflicts, validate_parents,
}

-- No hash twice.
abbrev pub NoDup : List Hash → Type 0
NoDup [] = Unit
NoDup (h ∷ hs) = (elem h hs ≡ false) × NoDup hs

elem-to_set : (k : Hash) (hs : List Hash) → elem k (to_set hs) ≡ elem k hs
elem-to_set k [] = refl
elem-to_set k (h ∷ hs) = ground (arith, elem-set_insert k h (to_set hs), elem-to_set k hs)

length-to_set : (hs : List Hash) → length (to_set hs) ≤ length hs
length-to_set [] = omega arith
length-to_set (h ∷ hs) = ground (arith, length-to_set hs)

-- The set is as long as the list exactly when no hash stands twice.
to_set-NoDup : (hs : List Hash) → (length (to_set hs) ≡ length hs) ↔ NoDup hs
to_set-NoDup [] = (λ _. tt, λ _. refl)
to_set-NoDup (h ∷ hs) = elim (Bool-cases (elem h hs)) [
  | inl again ↦ (λ e. ground (arith, length-to_set hs, elem-to_set h hs), λ n. ground arith)
  | inr new ↦ (
    λ e. (new, (to_set-NoDup hs).0 (ground (arith, elem-to_set h hs))),
    λ n. ground (arith, elem-to_set h hs, (to_set-NoDup hs).1 n.1),
  )
]

module _ (d : Dag) where
  -- The parent is confirmed, or final.
  abbrev pub IsConfirmed : Hash → Type 0
  IsConfirmed p = (get_status d p ≡ some confirmed) ⊎ (get_status d p ≡ some finalized)

  ok-confirmed :
      (p : Hash) (o : Option VertexStatus)
      → check_one p o ≡ ok tt
      → (o ≡ some confirmed) ⊎ (o ≡ some finalized)
  ok-confirmed p none e = ground arith
  ok-confirmed p (some confirmed) e = inl refl
  ok-confirmed p (some finalized) e = inr refl
  ok-confirmed p (some pending_status) e = ground arith
  ok-confirmed p (some awaiting_parents) e = ground arith
  ok-confirmed p (some rejected) e = ground arith
  ok-confirmed p (some orphaned) e = ground arith

  check_one-ok :
      (p : Hash) (o : Option VertexStatus)
      → (o ≡ some confirmed) ⊎ (o ≡ some finalized)
      → check_one p o ≡ ok tt
  check_one-ok p o (inl e) = ap (check_one p) e
  check_one-ok p o (inr e) = ap (check_one p) e

  no_error :
      {r : Result TipValidationError Unit} (e : TipValidationError) → r ≡ err e → ¬ (r ≡ ok tt)
  no_error e bad good = ground arith

  check_status_iff : (ps : List Hash) → (check_status d ps ≡ ok tt) ↔ All IsConfirmed ps
  check_status_iff [] = (λ _. tt, λ _. refl)
  check_status_iff (p ∷ ps) = elim (Result-cases (check_one p (get_status d p))) [
    | inl (e, bad) ↦
        rw (bad, check_status)
          (
            λ x. ground arith,
            λ all. absurd (no_error e bad (check_one-ok p (get_status d p) all.0)),
          )
    | inr (_, good) ↦
        let (one, back) = check_status_iff ps in
        rw (good, check_status)
          (λ x. (ok-confirmed p (get_status d p) good, one x), λ all. back all.1)
  ]

  -- Neither is an ancestor of the other.
  abbrev pub Apart : Hash → Hash → Type 0
  Apart p q = (¬ Descends d.vertices p q) × (¬ Descends d.vertices q p)

  abbrev pub AllApart : List Hash → Type 0
  AllApart [] = Unit
  AllApart (p ∷ ps) = All (Apart p) ps × AllApart ps

  conflict_with_iff :
      (p : Hash) (qs : List Hash)
      → (r : Option Hash) × (conflict_with d p qs ≡ some r) × ((r ≡ none) ↔ All (Apart p) qs)
  unfolding conflict_with
  conflict_with_iff p [] = (none, refl, (λ _. tt, λ _. refl))
  conflict_with_iff p (q ∷ qs) =
      let (a, ea, (sa, ca)) = is_ancestor_iff d p q in
      let (b, eb, (sb, cb)) = is_ancestor_iff d q p in
      let (r, e, (s, c)) = conflict_with_iff p qs in
      elim (Bool-cases (a || b)) [
        | inl conflict ↦ (
          some q,
          rw (ea, eb, conflict, conflict_with) refl,
          (
            λ e. ground arith,
            λ all. elim (Bool-cases a) [
              | inl down ↦ absurd (all.0.0 (sa down))
              | inr not_down ↦ absurd (all.0.1 (sb (ground arith)))
            ],
          ),
        )
        | inr apart ↦ (
          r,
          rw (ea, eb, apart, conflict_with) e,
          (λ n. ((λ x. ground (arith, ca x), λ x. ground (arith, cb x)), s n), λ all. c all.1),
        )
      ]

  check_conflicts_iff :
      (ps : List Hash)
      → (r : Result TipValidationError Unit) × (check_conflicts d ps ≡ some r)
        × ((r ≡ ok tt) ↔ AllApart ps)
  unfolding check_conflicts
  check_conflicts_iff [] = (ok tt, refl, (λ _. tt, λ _. refl))
  check_conflicts_iff (p ∷ ps) =
      let (o, eo, (so, co)) = conflict_with_iff p ps in
      let (r, e, (s, c)) = check_conflicts_iff ps in
      elim (Option-cases o) [
        | inl none_found ↦
            (r, rw (eo, none_found, check_conflicts) e, (λ x. (so none_found, s x), λ all. c all.1))
        | inr (q, found) ↦ (
          err (conflicting_parents p q),
          rw (eo, found, check_conflicts) refl,
          (λ x. ground arith, λ all. ground (arith, co all.0, found)),
        )
      ]

  -- The parents that a vertex may have.
  abbrev pub AreValid : List Hash → Type 0
  AreValid ps = (ps ≢ []) × (length ps ≤ max_parents) × NoDup ps × All IsConfirmed ps × AllApart ps

  -- `validate_parents` always answers, and accepts exactly the lists that are not empty, hold at
  -- most eight hashes, none of them twice, all of them confirmed or final, and no two of which one
  -- is an ancestor of the other.
  pub validate_parents_iff :
      (ps : List Hash)
      → (r : Result TipValidationError Unit) × (validate_parents d ps ≡ some r)
        × ((r ≡ ok tt) ↔ AreValid ps)
  unfolding validate_parents
  validate_parents_iff ps = elim (Bool-cases (no_hashes ps)) [
    | inl empty ↦ (
      err no_parents,
      rw empty refl,
      (λ x. ground arith, λ v. absurd (v.0 (no_hashes-empty ps empty))),
    )
    | inr some_parent ↦ elim (Bool-cases (ltb max_parents (length ps))) [
      | inl many ↦ (
        err too_many_parents,
        rw (some_parent, many) refl,
        (λ x. ground arith, λ v. ground (arith, v.1)),
      )
      | inr few ↦ elim (Bool-cases (length (to_set ps) == length ps)) [
        | inr twice ↦ (
          err duplicate_parents,
          rw (some_parent, few, twice) refl,
          (λ x. ground arith, λ v. ground (arith, (to_set-NoDup ps).1 v.2)),
        )
        | inl once ↦ elim (Result-cases (check_status d ps)) [
          | inl (e, bad) ↦ (
            err e,
            rw (some_parent, few, once, bad) refl,
            (λ x. ground arith, λ v. absurd (no_error e bad ((check_status_iff ps).1 v.3))),
          )
          | inr (_, good) ↦
              let (r, e, (s, c)) = check_conflicts_iff ps in
              (
                r,
                rw (some_parent, few, once, good) e,
                (
                  λ x. (
                    λ empty. ground (arith, ap no_hashes empty),
                    ground arith,
                    (to_set-NoDup ps).0 (ground arith),
                    (check_status_iff ps).0 good,
                    s x,
                  ),
                  λ v. c v.4,
                ),
              )
        ]
      ]
    ]
  ]
