-- ===== src/Base/Map.antt =====
-- HashMap and DashMap as association lists over numeric keys (addresses, hashes and epochs, which
-- the program only compares). The order of the entries is the iteration order, which Rust leaves
-- open: an insertion puts its entry first, and no theorem rests on that choice.
use nexus_chain.Base.Tests.{◌==◌, if◌then◌else◌, Bool-cases, ne_of_==-false}
use nexus_chain.Base.Lists.{sum}
use Prim.Native.Nat.{ℕ, ◌+◌, ◌≤◌}
use mathlib.Core.Path.{◌≡◌, refl, sym, ◌∙◌}
use mathlib.Core.Logic.{◌≢◌, inl, inr}
use mathlib.Core.Bool.{Bool, true, false}
use mathlib.Core.Option.{Option, none, some}
use mathlib.Core.List.{List, [], ◌∷◌, map}
use native.Mathlib.Omega.{arith}

abbrev pub Map {ℓ} : Type ℓ → Type ℓ
Map V = List (ℕ × V)

module _ {ℓ} {V : Type ℓ} where
  abbrev pub lookup : ℕ → Map V → Option V
  lookup k [] = none
  lookup k ((j, v) ∷ m) = if k == j then some v else lookup k m

  abbrev pub contains_key : ℕ → Map V → Bool
  contains_key k m = elim (lookup k m) [ none ↦ false | some _ ↦ true ]

  abbrev pub remove : ℕ → Map V → Map V
  remove k [] = []
  remove k (e ∷ m) = if k == e.0 then remove k m else e ∷ remove k m

  abbrev pub insert : ℕ → V → Map V → Map V
  insert k v m = (k, v) ∷ remove k m

  -- A write through `get_mut`: the entry stays where it is.
  abbrev pub modify : ℕ → (V → V) → Map V → Map V
  modify k f [] = []
  modify k f (e ∷ m) = if k == e.0 then (e.0, f e.1) ∷ m else e ∷ modify k f m

  abbrev pub values : Map V → List V
  values [] = []
  values (e ∷ m) = e.1 ∷ values m

  abbrev pub keys : Map V → List ℕ
  keys [] = []
  keys (e ∷ m) = e.0 ∷ keys m

  -- No key twice, as in every hash map.
  abbrev pub Unique : Map V → Type ℓ
  Unique [] = Unit {ℓ}
  Unique (e ∷ m) = (lookup e.0 m ≡ none) × Unique m

  pub lookup-remove_self : (k : ℕ) (m : Map V) → lookup k (remove k m) ≡ none
  lookup-remove_self k [] = refl
  lookup-remove_self k (e ∷ m) = ground (arith, lookup-remove_self k m)

  pub lookup-remove_ne : (j k : ℕ) (m : Map V) → j ≢ k → lookup j (remove k m) ≡ lookup j m
  lookup-remove_ne j k [] h = refl
  lookup-remove_ne j k (e ∷ m) h = ground (arith, lookup-remove_ne j k m h)

  pub lookup-insert :
      (j k : ℕ) (v : V) (m : Map V)
      → lookup j (insert k v m) ≡ (if j == k then some v else lookup j m)
  lookup-insert j k v m = elim (Bool-cases (j == k)) [
    | inl same ↦ rw same
    | inr other ↦ rw other (lookup-remove_ne j k m (ne_of_==-false j k other))
  ]

  pub lookup-modify :
      (j k : ℕ) (f : V → V) (v : V) (m : Map V)
      → lookup k m ≡ some v
      → lookup j (modify k f m) ≡ (if j == k then some (f v) else lookup j m)
  lookup-modify j k f v [] h = cc
  lookup-modify j k f v (e ∷ m) h = ground (arith, lookup-modify j k f v m)

  pub modify-absent : (k : ℕ) (f : V → V) (m : Map V) → lookup k m ≡ none → modify k f m ≡ m
  modify-absent k f [] h = refl
  modify-absent k f (e ∷ m) h = ground (arith, modify-absent k f m)

  pub remove-absent : (k : ℕ) (m : Map V) → lookup k m ≡ none → remove k m ≡ m
  remove-absent k [] h = refl
  remove-absent k (e ∷ m) h = ground (arith, remove-absent k m)

  pub remove-Unique : (k : ℕ) (m : Map V) → Unique m → Unique (remove k m)
  remove-Unique k [] u = tt
  remove-Unique k (e ∷ m) u = elim (Bool-cases (k == e.0)) [
    | inl same ↦ rw same (remove-Unique k m u.1)
    | inr other ↦ rw other (
      lookup-remove_ne e.0 k m (λ p. ne_of_==-false k e.0 other (sym p)) ∙ u.0,
      remove-Unique k m u.1,
    )
  ]

  pub insert-Unique : (k : ℕ) (v : V) (m : Map V) → Unique m → Unique (insert k v m)
  insert-Unique k v m u = (lookup-remove_self k m, remove-Unique k m u)

  pub lookup-modify-none :
      (j k : ℕ) (f : V → V) (m : Map V) → lookup j m ≡ none → lookup j (modify k f m) ≡ none
  lookup-modify-none j k f [] h = refl
  lookup-modify-none j k f (e ∷ m) h = ground (arith, lookup-modify-none j k f m)

  pub modify-Unique : (k : ℕ) (f : V → V) (m : Map V) → Unique m → Unique (modify k f m)
  modify-Unique k f [] u = tt
  modify-Unique k f (e ∷ m) u =
      ground (arith, modify-Unique k f m u.1, lookup-modify-none e.0 k f m u.0)

  -- Sums over the values, by a measure `w`.
  module _ (w : V → ℕ) where
    pub sum-remove :
        (v : V) (k : ℕ) (m : Map V)
        → Unique m
        → lookup k m ≡ some v
        → sum (map w (values (remove k m))) + w v ≡ sum (map w (values m))
    sum-remove v k [] u h = cc
    sum-remove v k (e ∷ m) u h = ground (arith, sum-remove v k m u.1, remove-absent k m)

    pub sum-modify :
        (v : V) (k : ℕ) (f : V → V) (m : Map V)
        → lookup k m ≡ some v
        → sum (map w (values (modify k f m))) + w v ≡ sum (map w (values m)) + w (f v)
    sum-modify v k f [] h = cc
    sum-modify v k f (e ∷ m) h = ground (arith, sum-modify v k f m)

    pub le-sum_of_lookup :
        (v : V) (k : ℕ) (m : Map V) → lookup k m ≡ some v → w v ≤ sum (map w (values m))
    le-sum_of_lookup v k [] h = cc
    le-sum_of_lookup v k (e ∷ m) h = ground (arith, le-sum_of_lookup v k m)
