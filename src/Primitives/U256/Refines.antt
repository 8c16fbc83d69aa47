-- ===== src/Primitives/U256/Refines.antt =====
-- The operators of `U256` of types.rs on limbs against those on numbers.
use nexus_chain.Base.{
  ℕ, ◌+◌, ◌-◌, ◌*◌, ◌≤◌, ◌<◌, ◌≡◌, sym, ap, ◌∙◌, Option, none, some, [], ◌∷◌, arith, length,
  if◌then◌else◌, ltb, u256_mod, Bool-cases, inl, inr,
}
use Prim.Native.Nat.{compare}
use nexus_chain.Primitives.Number.{add256, sub256, mul256}
use nexus_chain.Primitives.U256.{
  Limbs, add_limbs, checked_add, sub_limbs, checked_sub, cmp_limbs, mul_limbs, mul,
}
use nexus_chain.Primitives.U256.Product.{mul_limbs_lem}
use nexus_chain.Primitives.U256.Value.{
  value, scale, AreWords, value_lt, scale-same, add_limbs_lem, sub_limbs_lem, cmp_limbs_lem,
}

pub record IsU256 (xs : Limbs) : Type 0 where
  pub words : AreWords xs
  pub four : length xs ≡ 4

abbrev pub value_of : Option Limbs → Option ℕ
value_of none = none
value_of (some xs) = some (value xs)

scale-four : (xs : Limbs) → length xs ≡ 4 → scale xs ≡ u256_mod
scale-four xs h = scale-same xs (0 ∷ 0 ∷ 0 ∷ 0 ∷ []) h

-- `none`, or four words.
abbrev pub GivesU256 : Option Limbs → Type 0
GivesU256 none = Unit
GivesU256 (some xs) = IsU256 xs

IsU256-value_lt : (xs : Limbs) → IsU256 xs → value xs < u256_mod
IsU256-value_lt xs x = omega (arith, value_lt xs x.words, scale-four xs x.four)

-- What is read off the loops: `r` the limbs and `l` the last carry or borrow.
module _ (r : Limbs) (l : ℕ) (few : l ≤ 1) (res : IsU256 r) where
  sum_reads :
      (n : ℕ)
      → value r + l * u256_mod ≡ n
      → value_of (if ltb 0 l then none else some r) ≡ (if ltb n u256_mod then some n else none)
  sum_reads n e = ground (arith, IsU256-value_lt r res)

  diff_reads :
      (a b : ℕ)
      → value r + b ≡ a + l * u256_mod
      → b < u256_mod
      → value_of (if ltb 0 l then none else some r) ≡ (if ltb a b then none else some (a - b))
  diff_reads a b e small = ground (arith, IsU256-value_lt r res)

  gives_words : GivesU256 (if ltb 0 l then none else some r)
  gives_words = elim (Bool-cases (ltb 0 l)) [ inl over ↦ rw over tt | inr fits ↦ rw fits res ]

module _ (xs ys : Limbs) (x : IsU256 xs) (y : IsU256 ys) where
  checked_add_lem :
      (value_of (checked_add xs ys) ≡ add256 (value xs) (value ys)) × GivesU256 (checked_add xs ys)
  unfolding checked_add
  checked_add_lem =
      let out = add_limbs xs ys 0 in
      let (total, last, words, long) =
        add_limbs_lem xs ys 0 x.words y.words (x.four ∙ sym y.four) (omega arith) in
      let res : IsU256 out.0 = record { words = words; four = long ∙ x.four } in
      (
        sum_reads out.0 out.1 last res (value xs + value ys) (
            omega (arith, total, scale-four xs x.four, ap (λ m. out.1 * m) (scale-four xs x.four))),
        gives_words out.0 out.1 last res,
      )

  checked_sub_lem :
      (value_of (checked_sub xs ys) ≡ sub256 (value xs) (value ys)) × GivesU256 (checked_sub xs ys)
  unfolding checked_sub
  checked_sub_lem =
      let out = sub_limbs xs ys 0 in
      let (total, last, words, long) =
        sub_limbs_lem xs ys 0 x.words y.words (x.four ∙ sym y.four) (omega arith) in
      let res : IsU256 out.0 = record { words = words; four = long ∙ x.four } in
      (
        diff_reads out.0 out.1 last res (value xs) (value ys)
            (omega (arith, total, ap (λ m. out.1 * m) (scale-four xs x.four)))
            (IsU256-value_lt ys y),
        gives_words out.0 out.1 last res,
      )

  mul_lem : (value (mul xs ys) ≡ mul256 (value xs) (value ys)) × IsU256 (mul xs ys)
  unfolding mul
  mul_lem =
      let zeros = 0 ∷ 0 ∷ 0 ∷ 0 ∷ [] in
      let (q, total, words, long) =
        mul_limbs_lem xs ys zeros x.words y.words
          (omega arith, (omega arith, (omega arith, (omega arith, tt)))) (omega (arith, y.four)) in
      let res : IsU256 (mul_limbs xs ys zeros) = record { words = words; four = long } in
      (omega (arith, total, IsU256-value_lt (mul_limbs xs ys zeros) res), res)

-- On four words each: `checked_add`, `checked_sub`, `cmp` and `mul` give what the numbers give that
-- the limbs stand for, the product without the bits above 256, and every resulting number is four
-- words again.
pub limb_operators_lem :
    (xs ys : Limbs)
    → IsU256 xs
    → IsU256 ys
    → (value_of (checked_add xs ys) ≡ add256 (value xs) (value ys))
      × (value_of (checked_sub xs ys) ≡ sub256 (value xs) (value ys))
      × (cmp_limbs xs ys ≡ compare (value xs) (value ys))
      × (value (mul xs ys) ≡ mul256 (value xs) (value ys))
      × GivesU256 (checked_add xs ys)
      × GivesU256 (checked_sub xs ys)
      × IsU256 (mul xs ys)
limb_operators_lem xs ys x y =
    let (sum, sum_words) = checked_add_lem xs ys x y in
    let (diff, diff_words) = checked_sub_lem xs ys x y in
    let (product, product_words) = mul_lem xs ys x y in
    (
      sum,
      diff,
      cmp_limbs_lem xs ys x.words y.words (x.four ∙ sym y.four),
      product,
      sum_words,
      diff_words,
      product_words,
    )
