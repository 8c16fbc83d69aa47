-- ===== src/Primitives/U256/Value.antt =====
-- The number that limbs of types.rs stand for, and the loops on it.
use nexus_chain.Base.{
  ℕ, ◌+◌, ◌*◌, ◌≤◌, ◌<◌, ◌≡◌, refl, [], ◌∷◌, arith, All, length, u64_mod, sub64, add64,
}
use Prim.Native.Nat.{compare, Ordering}
use nexus_chain.Primitives.U256.{Limbs, carry_of, add_limbs, borrow_of, sub_limbs, cmp_limbs}

abbrev pub value : Limbs → ℕ
value [] = 0
value (x ∷ xs) = x + u64_mod * value xs

-- One above the largest number of as many limbs.
abbrev pub scale : Limbs → ℕ
scale [] = 1
scale (_ ∷ xs) = u64_mod * scale xs

abbrev pub AreWords : Limbs → Type 0
AreWords = All (λ x. x < u64_mod)

pub value_lt : (xs : Limbs) → AreWords xs → value xs < scale xs
value_lt [] h = omega arith
value_lt (x ∷ xs) h = omega (arith, h.0, value_lt xs h.1)

pub scale-same : (xs ys : Limbs) → length xs ≡ length ys → scale xs ≡ scale ys
scale-same [] [] h = refl
scale-same [] (y ∷ ys) h = omega arith
scale-same (x ∷ xs) [] h = omega arith
scale-same (x ∷ xs) (y ∷ ys) h = omega (arith, scale-same xs ys (omega arith))

add_word :
    (a b carry : ℕ)
    → a < u64_mod
    → b < u64_mod
    → carry ≤ 1
    → (add64 (add64 a b) carry + u64_mod * (carry_of a b + carry_of (add64 a b) carry)
        ≡ a + b + carry)
      × (carry_of a b + carry_of (add64 a b) carry ≤ 1)
      × (add64 (add64 a b) carry < u64_mod)
add_word a b carry ha hb hc = (ground arith, ground arith, omega arith)

sub_word :
    (a b borrow : ℕ)
    → a < u64_mod
    → b < u64_mod
    → borrow ≤ 1
    → (sub64 (sub64 a b) borrow + b + borrow
        ≡ a + u64_mod * (borrow_of a b + borrow_of (sub64 a b) borrow))
      × (borrow_of a b + borrow_of (sub64 a b) borrow ≤ 1)
      × (sub64 (sub64 a b) borrow < u64_mod)
sub_word a b borrow ha hb hc = (ground arith, ground arith, omega arith)

carry_chain :
    (s c r l m a b v w carry : ℕ)
    → s + u64_mod * c ≡ a + b + carry
    → r + l * m ≡ v + w + c
    → s + u64_mod * r + l * (u64_mod * m) ≡ a + u64_mod * v + (b + u64_mod * w) + carry
carry_chain s c r l m a b v w carry low high = omega arith

borrow_chain :
    (d c r l m a b v w borrow : ℕ)
    → d + b + borrow ≡ a + u64_mod * c
    → r + w + c ≡ v + l * m
    → d + u64_mod * r + (b + u64_mod * w) + borrow ≡ a + u64_mod * v + l * (u64_mod * m)
borrow_chain d c r l m a b v w borrow low high = omega arith

-- What the loop of `checked_add` leaves: words of as many limbs, with the last carry above them.
pub add_limbs_lem :
    (xs ys : Limbs) (carry : ℕ)
    → AreWords xs
    → AreWords ys
    → length xs ≡ length ys
    → carry ≤ 1
    → let (result, last) = add_limbs xs ys carry in
      (value result + last * scale xs ≡ value xs + value ys + carry)
      × (last ≤ 1)
      × AreWords result
      × (length result ≡ length xs)
unfolding add_limbs
add_limbs_lem [] [] carry hx hy e hc = (omega arith, hc, tt, refl)
add_limbs_lem [] (y ∷ ys) carry hx hy e hc = omega arith
add_limbs_lem (x ∷ xs) [] carry hx hy e hc = omega arith
add_limbs_lem (x ∷ xs) (y ∷ ys) carry hx hy e hc =
    let (sum, small, word) = add_word x y carry hx.0 hy.0 hc in
    let rest = add_limbs xs ys (carry_of x y + carry_of (add64 x y) carry) in
    let (total, last, words, long) =
      add_limbs_lem xs ys (carry_of x y + carry_of (add64 x y) carry) hx.1 hy.1 (omega arith)
        small in
    (
      carry_chain (add64 (add64 x y) carry) (carry_of x y + carry_of (add64 x y) carry)
          (value rest.0) rest.1 (scale xs) x y (value xs) (value ys) carry sum total,
      last,
      (word, words),
      omega (arith, long),
    )

-- What the loop of `checked_sub` leaves: words of as many limbs, with the last borrow owed.
pub sub_limbs_lem :
    (xs ys : Limbs) (borrow : ℕ)
    → AreWords xs
    → AreWords ys
    → length xs ≡ length ys
    → borrow ≤ 1
    → let (result, last) = sub_limbs xs ys borrow in
      (value result + value ys + borrow ≡ value xs + last * scale xs)
      × (last ≤ 1)
      × AreWords result
      × (length result ≡ length xs)
unfolding sub_limbs
sub_limbs_lem [] [] borrow hx hy e hc = (omega arith, hc, tt, refl)
sub_limbs_lem [] (y ∷ ys) borrow hx hy e hc = omega arith
sub_limbs_lem (x ∷ xs) [] borrow hx hy e hc = omega arith
sub_limbs_lem (x ∷ xs) (y ∷ ys) borrow hx hy e hc =
    let (diff, small, word) = sub_word x y borrow hx.0 hy.0 hc in
    let rest = sub_limbs xs ys (borrow_of x y + borrow_of (sub64 x y) borrow) in
    let (total, last, words, long) =
      sub_limbs_lem xs ys (borrow_of x y + borrow_of (sub64 x y) borrow) hx.1 hy.1 (omega arith)
        small in
    (
      borrow_chain (sub64 (sub64 x y) borrow) (borrow_of x y + borrow_of (sub64 x y) borrow)
          (value rest.0) rest.1 (scale xs) x y (value xs) (value ys) borrow diff total,
      last,
      (word, words),
      omega (arith, long),
    )

compare_words :
    (a b v w : ℕ)
    → a < u64_mod
    → b < u64_mod
    → (elim (compare v w) [
      | Ordering.eq ↦ compare a b
      | Ordering.lt ↦ Ordering.lt
      | Ordering.gt ↦ Ordering.gt
    ])
      ≡ compare (a + u64_mod * v) (b + u64_mod * w)
compare_words a b v w ha hb = ground arith

pub cmp_limbs_lem :
    (xs ys : Limbs)
    → AreWords xs
    → AreWords ys
    → length xs ≡ length ys
    → cmp_limbs xs ys ≡ compare (value xs) (value ys)
unfolding cmp_limbs
cmp_limbs_lem [] [] hx hy e = refl
cmp_limbs_lem [] (y ∷ ys) hx hy e = ground arith
cmp_limbs_lem (x ∷ xs) [] hx hy e = ground arith
cmp_limbs_lem (x ∷ xs) (y ∷ ys) hx hy e =
    rw (cmp_limbs_lem xs ys hx.1 hy.1 (omega arith), cmp_limbs)
      (compare_words x y (value xs) (value ys) hx.0 hy.0)
