-- ===== src/Dag/Tips.antt =====
-- `select_count`, `highest_weight_selection` and `validate_parents` of
-- crates/nexus-dag/src/tip_selection.rs. The strategies on random numbers and floats are left out.
pub mod Valid
mod Tests
use nexus_chain.Base.{
  ℕ, zero, suc, Bool, true, false, not, ◌||◌, List, [], ◌∷◌, map, Option, none, some, Result, ok,
  err, ◌>>=◌, if◌then◌else◌, ◌==◌, ltb, leb, length, take, min, max,
}
use nexus_chain.Primitives.Merkle.{Hash}
use nexus_chain.Dag.Vertex.{
  VertexStatus, pending_status, awaiting_parents, confirmed, finalized, rejected, orphaned,
  max_parents, no_hashes,
}
use nexus_chain.Dag.Graph.{Dag, set_insert, expected_height}
use nexus_chain.Dag.Graph.Queries.{get_status, get_tips, is_ancestor, calculate_weight}

pub record TipSelector : Type 0 where
  pub min_parents : ℕ
  pub max_parents : ℕ

abbrev pub new_selector : TipSelector
new_selector = record { min_parents = 1; max_parents = 8 }

abbrev pub with_parent_limits : ℕ → ℕ → TipSelector
with_parent_limits low high = record { min_parents = low; max_parents = min high max_parents }

unfoldable pub select_count : TipSelector → ℕ → ℕ
select_count s available =
    if available == 0 then 0 else min (max (min 2 available) s.min_parents) s.max_parents

-- The weights of the tips; `none` is a search out of fuel.
abbrev pub weighted : Dag → List Hash → Option (List (Hash × ℕ))
weighted d [] = some []
weighted d (h ∷ hs) = elim (calculate_weight d h) [
  | none ↦ none
  | some weight ↦ elim (weighted d hs) [ none ↦ none | some rest ↦ some ((h, weight) ∷ rest) ]
]

-- The stable sort by falling weight.
abbrev pub insert_weighted : Hash × ℕ → List (Hash × ℕ) → List (Hash × ℕ)
insert_weighted x [] = x ∷ []
insert_weighted x (y ∷ ys) = if leb y.1 x.1 then x ∷ y ∷ ys else y ∷ insert_weighted x ys

abbrev pub sort_weighted : List (Hash × ℕ) → List (Hash × ℕ)
sort_weighted [] = []
sort_weighted (x ∷ xs) = insert_weighted x (sort_weighted xs)

unfoldable pub highest_weight_selection : TipSelector → Dag → List Hash → Option (List Hash)
highest_weight_selection s d tips = elim (weighted d tips) [
  | none ↦ none
  | some xs ↦ some (map (λ x. x.0) (take (select_count s (length tips)) (sort_weighted xs)))
]

-- The height that `select` gives to a vertex over the parents it chose.
abbrev pub selected_height : Dag → List Hash → ℕ
selected_height d parents = expected_height d.vertices parents

pub data TipValidationError : Type 0 where
  no_parents too_many_parents duplicate_parents : TipValidationError
  parent_not_confirmed : Hash → VertexStatus → TipValidationError
  parent_not_found : Hash → TipValidationError
  conflicting_parents : Hash → Hash → TipValidationError

-- The `HashSet` of the parents.
abbrev pub to_set : List Hash → List Hash
to_set [] = []
to_set (h ∷ hs) = set_insert h (to_set hs)

-- The `match` on the status of one parent.
abbrev pub check_one : Hash → Option VertexStatus → Result TipValidationError Unit
check_one p none = err (parent_not_found p)
check_one p (some confirmed) = ok tt
check_one p (some finalized) = ok tt
check_one p (some pending_status) = err (parent_not_confirmed p pending_status)
check_one p (some awaiting_parents) = err (parent_not_confirmed p awaiting_parents)
check_one p (some rejected) = err (parent_not_confirmed p rejected)
check_one p (some orphaned) = err (parent_not_confirmed p orphaned)

abbrev pub check_status : Dag → List Hash → Result TipValidationError Unit
check_status d [] = ok tt
check_status d (p ∷ ps) = check_one p (get_status d p) >>= λ _. check_status d ps

-- The inner loop: the first later parent that `p` is an ancestor of, or the other way round.
unfoldable pub conflict_with : Dag → Hash → List Hash → Option (Option Hash)
conflict_with d p [] = some none
conflict_with d p (q ∷ qs) =
    let rest = conflict_with d p qs in
    elim (is_ancestor d p q) [
      | none ↦ none
      | some down ↦ elim (is_ancestor d q p) [
        | none ↦ none
        | some up ↦ if down || up then some (some q) else rest
      ]
    ]

unfoldable pub check_conflicts : Dag → List Hash → Option (Result TipValidationError Unit)
check_conflicts d [] = some (ok tt)
check_conflicts d (p ∷ ps) =
    let rest = check_conflicts d ps in
    elim (conflict_with d p ps) [
      | none ↦ none
      | some none ↦ rest
      | some (some q) ↦ some (err (conflicting_parents p q))
    ]

unfoldable pub validate_parents : Dag → List Hash → Option (Result TipValidationError Unit)
validate_parents d parents =
    if no_hashes parents
    then some (err no_parents)
    else if ltb max_parents (length parents)
    then some (err too_many_parents)
    else if not (length (to_set parents) == length parents)
    then some (err duplicate_parents)
    else elim (check_status d parents) [ err e ↦ some (err e) | ok _ ↦ check_conflicts d parents ]
