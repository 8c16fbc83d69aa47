-- ===== src/Iso/Iso8583/Sorted.antt =====
-- The order of the field ids of iso8583.rs: sorted keys are the set bits from the lowest id up.
use nexus_chain.Base.{
  ℕ, zero, suc, ◌+◌, ◌-◌, ◌<◌, ◌≤◌, ◌≡◌, refl, sym, ◌∙◌, ap, true, false, ◌||◌, List, [], ◌∷◌, ◌++◌,
  inl, inr, arith, ◌==◌, leb, elem, Bool-cases, ==→eq, ==-refl,
}
use nexus_chain.Base.Map.{Map, keys, contains_key, Unique}
use nexus_chain.Iso.Iso8583.{test_bit, insert_sorted, sort}
use nexus_chain.Iso.Iso8583.Bits.{ids_of}

-- Strictly ascending, from above `low`.
abbrev pub Ascending : ℕ → List ℕ → Type 0
Ascending low [] = Unit
Ascending low (x ∷ xs) = (low < x) × Ascending x xs

Ascending-low : (a b : ℕ) (xs : List ℕ) → a ≤ b → Ascending b xs → Ascending a xs
Ascending-low a b [] le h = tt
Ascending-low a b (x ∷ xs) le h = (omega arith, h.1)

Ascending-above : (low k : ℕ) (xs : List ℕ) → Ascending low xs → elem k xs ≡ true → low < k
Ascending-above low k [] h e = ground arith
Ascending-above low k (x ∷ xs) h e = elim (Bool-cases (k == x)) [
  | inl same ↦ omega (arith, ==→eq k x same)
  | inr other ↦ omega (arith, Ascending-above x k xs h.1 (ground arith))
]

pub Ascending-out : (low k : ℕ) (xs : List ℕ) → Ascending low xs → k ≤ low → elem k xs ≡ false
Ascending-out low k [] h le = refl
Ascending-out low k (x ∷ xs) h le = ground (arith, Ascending-out x k xs h.1)

head-least : (y k : ℕ) (ys : List ℕ) → Ascending y ys → elem k (y ∷ ys) ≡ true → y ≤ k
head-least y k ys g e = elim (Bool-cases (k == y)) [
  | inl same ↦ omega (arith, ==→eq k y same)
  | inr other ↦ omega (arith, Ascending-above y k ys g (ground arith))
]

tails :
    (x y : ℕ) (xs ys : List ℕ)
    → x ≡ y
    → Ascending x xs
    → Ascending y ys
    → ((k : ℕ) → elem k (x ∷ xs) ≡ elem k (y ∷ ys))
    → (k : ℕ) → elem k xs ≡ elem k ys
tails x y xs ys same h g e k = elim (Bool-cases (k == x)) [
  | inl at ↦
      Ascending-out x k xs h (omega (arith, ==→eq k x at))
      ∙ sym (Ascending-out y k ys g (omega (arith, ==→eq k x at)))
  | inr other ↦ ground (arith, e k)
]

-- Two ascending lists with the same members are the same list.
pub Ascending-unique :
    (a b : ℕ) (xs ys : List ℕ)
    → Ascending a xs
    → Ascending b ys
    → ((k : ℕ) → elem k xs ≡ elem k ys)
    → xs ≡ ys
Ascending-unique a b [] [] h g e = refl
Ascending-unique a b [] (y ∷ ys) h g e = ground (arith, e y, ==-refl y)
Ascending-unique a b (x ∷ xs) [] h g e = ground (arith, e x, ==-refl x)
Ascending-unique a b (x ∷ xs) (y ∷ ys) h g e =
    let same : x ≡ y = omega (
      arith,
      head-least y x ys g.1 (sym (e x) ∙ ground (arith, ==-refl x)),
      head-least x y xs h.1 (e y ∙ ground (arith, ==-refl y)),
    ) in
    ap (λ k. k ∷ xs) same
    ∙ ap (λ l. y ∷ l) (Ascending-unique x y xs ys h.1 g.1 (tails x y xs ys same h.1 g.1 e))

elem-insert_sorted : (k x : ℕ) (xs : List ℕ) → elem k (insert_sorted x xs) ≡ (k == x || elem k xs)
elem-insert_sorted k x [] = refl
elem-insert_sorted k x (y ∷ ys) = ground (arith, elem-insert_sorted k x ys)

insert_sorted-Ascending :
    (low x : ℕ) (xs : List ℕ)
    → Ascending low xs
    → low < x
    → elem x xs ≡ false
    → Ascending low (insert_sorted x xs)
insert_sorted-Ascending low x [] h lt new = (lt, tt)
insert_sorted-Ascending low x (y ∷ ys) h lt new = elim (Bool-cases (leb x y)) [
  | inl before ↦ rw (before, insert_sorted) (lt, (ground arith, h.1))
  | inr after ↦
      rw (after, insert_sorted)
        (h.0, insert_sorted-Ascending y x ys h.1 (ground arith) (ground arith))
]

pub elem-sort : (k : ℕ) (xs : List ℕ) → elem k (sort xs) ≡ elem k xs
elem-sort k [] = refl
elem-sort k (x ∷ xs) = elem-insert_sorted k x (sort xs) ∙ ap (λ b. k == x || b) (elem-sort k xs)

pub elem-keys {ℓ} : {V : Type ℓ} (k : ℕ) (m : Map V) → elem k (keys m) ≡ contains_key k m
elem-keys k [] = refl
elem-keys k (e ∷ m) = ground (arith, elem-keys k m)

-- The sorted keys of a map without 0 ascend strictly.
pub sort-keys_Ascending {ℓ} :
    {V : Type ℓ} (m : Map V) → Unique m → contains_key 0 m ≡ false → Ascending 0 (sort (keys m))
sort-keys_Ascending [] u z = tt
sort-keys_Ascending (e ∷ m) u z =
    insert_sorted-Ascending 0 e.0 (sort (keys m)) (sort-keys_Ascending m u.1 (ground arith))
      (ground arith) (elem-sort e.0 (keys m) ∙ elem-keys e.0 m ∙ rw (u.0, contains_key) refl)

pub ids_of-Ascending :
    (low last bitmap n bit : ℕ) → low < bit → Ascending low (ids_of last bitmap n bit)
unfolding ids_of
ids_of-Ascending low last bitmap zero bit lt = tt
ids_of-Ascending low last bitmap (suc n) bit lt = elim (Bool-cases (test_bit (last - bit) bitmap)) [
  | inl set ↦ rw (set, ids_of) (lt, ids_of-Ascending bit last bitmap n (bit + 1) (omega arith))
  | inr unset ↦ rw (unset, ids_of) (ids_of-Ascending low last bitmap n (bit + 1) (omega arith))
]

pub append-Ascending :
    (low high : ℕ) (xs ys : List ℕ)
    → Ascending low xs
    → ((k : ℕ) → elem k xs ≡ true → k ≤ high)
    → low ≤ high
    → Ascending high ys
    → Ascending low (xs ++ ys)
append-Ascending low high [] ys h top le g = Ascending-low low high ys le g
append-Ascending low high (x ∷ xs) ys h top le g = (
  h.0,
  append-Ascending x high xs ys h.1 (λ k e. top k (ground arith))
      (top x (ground (arith, ==-refl x))) g,
)
