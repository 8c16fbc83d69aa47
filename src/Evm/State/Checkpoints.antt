-- ===== src/Evm/State/Checkpoints.antt =====
-- The checkpoints of a `JournaledState` of state.rs across the calls made after one of them.
use nexus_chain.Base.{
  ℕ, zero, suc, ◌≤◌, ◌<◌, ◌≡◌, refl, sym, ◌∙◌, ap, some, List, [], ◌∷◌, ◌++◌, arith, length, take,
  get_elem?, All, All-append,
}

-- The checkpoints are those of `before`, one at `n`, and later ones that are no lower.
abbrev pub Extends : List ℕ → ℕ → List ℕ → Type 0
Extends before n now = (later : List ℕ) × (now ≡ before ++ (n ∷ later)) × All (λ m. n ≤ m) later

le_of_elem :
    (n m id : ℕ) (later : List ℕ) → All (λ m. n ≤ m) later → get_elem? later id ≡ some m → n ≤ m
le_of_elem n m id [] low e = cc
le_of_elem n m zero (x ∷ later) low e = ground arith
le_of_elem n m (suc id) (x ∷ later) low e = le_of_elem n m id later low.1 e

inner_elem :
    (n m id : ℕ) (before later : List ℕ)
    → All (λ m. n ≤ m) later
    → length before < id
    → get_elem? (before ++ (n ∷ later)) id ≡ some m
    → n ≤ m
inner_elem n m zero before later low inner e = omega arith
inner_elem n m (suc id) [] later low inner e = le_of_elem n m id later low e
inner_elem n m (suc id) (x ∷ before) later low inner e =
    inner_elem n m id before later low (omega arith) e

pub Extends-elem :
    (n m id : ℕ) (before now : List ℕ)
    → Extends before n now
    → length before < id
    → get_elem? now id ≡ some m
    → n ≤ m
Extends-elem n m id before now (later, e, low) inner found =
    inner_elem n m id before later low inner (ap (λ l. get_elem? l id) (sym e) ∙ found)

All-take : (n k : ℕ) (later : List ℕ) → All (λ m. n ≤ m) later → All (λ m. n ≤ m) (take k later)
All-take n zero later low = tt
All-take n (suc k) [] low = tt
All-take n (suc k) (x ∷ later) low = (low.0, All-take n k later low.1)

take_inner :
    (n id : ℕ) (before later : List ℕ)
    → All (λ m. n ≤ m) later
    → length before < id
    → Extends before n (take id (before ++ (n ∷ later)))
take_inner n zero before later low inner = ground arith
take_inner n (suc id) [] later low inner = (take id later, refl, All-take n id later low)
take_inner n (suc id) (x ∷ before) later low inner =
    let (rest, e, kept) = take_inner n id before later low (omega arith) in
    (rest, ap (λ l. x ∷ l) e, kept)

pub Extends-take :
    (n id : ℕ) (before now : List ℕ)
    → Extends before n now
    → length before < id
    → Extends before n (take id now)
Extends-take n id before now (later, e, low) inner = rw e (take_inner n id before later low inner)

append_later :
    (n m : ℕ) (before later : List ℕ)
    → (before ++ (n ∷ later)) ++ (m ∷ []) ≡ before ++ (n ∷ (later ++ (m ∷ [])))
append_later n m [] later = refl
append_later n m (x ∷ before) later = ap (λ l. x ∷ l) (append_later n m before later)

pub Extends-append :
    (n m : ℕ) (before now : List ℕ)
    → Extends before n now
    → n ≤ m
    → Extends before n (now ++ (m ∷ []))
Extends-append n m before now (later, e, low) h = (
  later ++ (m ∷ []),
  ap (λ l. l ++ (m ∷ [])) e ∙ append_later n m before later,
  All-append (λ m. n ≤ m) later (m ∷ []) low (h, tt),
)

elem_own :
    (n : ℕ) (before later : List ℕ) → get_elem? (before ++ (n ∷ later)) (length before) ≡ some n
elem_own n [] later = refl
elem_own n (x ∷ before) later = elem_own n before later

take_own : (n : ℕ) (before later : List ℕ) → take (length before) (before ++ (n ∷ later)) ≡ before
take_own n [] later = refl
take_own n (x ∷ before) later = ap (λ l. x ∷ l) (take_own n before later)

-- The entry at the checkpoint itself, and what is below it.
pub Extends-own :
    (n : ℕ) (before now : List ℕ)
    → Extends before n now
    → (get_elem? now (length before) ≡ some n) × (take (length before) now ≡ before)
Extends-own n before now (later, e, low) = (
  ap (λ l. get_elem? l (length before)) e ∙ elem_own n before later,
  ap (λ l. take (length before) l) e ∙ take_own n before later,
)
