-- ===== src/Primitives/U256/Product.antt =====
-- The loops of `mul` of types.rs on the numbers that the limbs stand for.
use nexus_chain.Base.{
  ℕ, ◌+◌, ◌*◌, ◌/◌, ◌%◌, ◌≤◌, ◌<◌, ◌≡◌, refl, sym, [], ◌∷◌, arith, length, u64_mod,
}
use nexus_chain.Primitives.U256.{Limbs, mul_limb, mul_limbs}
use nexus_chain.Primitives.U256.Value.{value, scale, scale-same, AreWords}

times_le : (a b n : ℕ) → a ≤ n → b ≤ n → a * b ≤ n * n
times_le a b n h k = grind arith

-- A word times a word, and two words more: the low word and the high one.
product_word :
    (x y r c : ℕ)
    → x < u64_mod
    → y < u64_mod
    → r < u64_mod
    → c < u64_mod
    → (x * y + r + c) % u64_mod + u64_mod * ((x * y + r + c) / u64_mod % u64_mod) ≡ x * y + r + c
product_word x y r c hx hy hr hc =
    let top : x * y ≤ 18446744073709551615 * 18446744073709551615 =
      times_le x y 18446744073709551615 (omega arith) (omega arith) in
    omega arith

round_chain :
    (p k o q m x y v r w c : ℕ)
    → p + u64_mod * k ≡ x * y + r + c
    → o + q * m ≡ x * v + w + k
    → p + u64_mod * o + q * (u64_mod * m) ≡ x * (y + u64_mod * v) + (r + u64_mod * w) + c
round_chain p k o q m x y v r w c low high = grind arith

-- What one round leaves: as many words, which are the sum up to a multiple of their scale.
pub mul_limb_lem :
    (x : ℕ) (ys rs : Limbs) (c : ℕ)
    → x < u64_mod
    → c < u64_mod
    → AreWords ys
    → AreWords rs
    → length rs ≤ length ys
    → (q : ℕ) × (value (mul_limb x ys rs c) + q * scale rs ≡ x * value ys + value rs + c)
      × AreWords (mul_limb x ys rs c)
      × (length (mul_limb x ys rs c) ≡ length rs)
unfolding mul_limb
mul_limb_lem x [] [] c hx hc hy hr e = (c, omega arith, tt, refl)
mul_limb_lem x (y ∷ ys) [] c hx hc hy hr e =
    (x * (y + u64_mod * value ys) + c, omega arith, tt, refl)
mul_limb_lem x [] (r ∷ rs) c hx hc hy hr e = ground arith
mul_limb_lem x (y ∷ ys) (r ∷ rs) c hx hc hy hr e =
    let p = x * y + r + c in
    let (q, total, words, long) =
      mul_limb_lem x ys rs (p / u64_mod % u64_mod) hx (omega arith) hy.1 hr.1 (omega arith) in
    (
      q,
      round_chain (p % u64_mod) (p / u64_mod % u64_mod)
          (value (mul_limb x ys rs (p / u64_mod % u64_mod))) q (scale rs) x y (value ys) r
          (value rs) c (product_word x y r c hx hy.0 hr.0 hc) total,
      (omega arith, words),
      omega (arith, long),
    )

outer_chain :
    (p o w q k m x v y r : ℕ)
    → p + u64_mod * w + q * (u64_mod * m) ≡ x * y + r + 0
    → o + k * m ≡ v * y + w
    → p + u64_mod * o + (q + k) * (u64_mod * m) ≡ (x + u64_mod * v) * y + r
outer_chain p o w q k m x v y r low high = grind arith

-- Words that are a product and more, up to a multiple of the scale.
abbrev pub Multiplies : Limbs → Limbs → Limbs → Limbs → Type 0
Multiplies xs ys rs out =
    (q : ℕ) × (value out + q * scale rs ≡ value xs * value ys + value rs)
    × AreWords out
    × (length out ≡ length rs)

-- The rounds after the first, which left `out`.
outer_step :
    (x : ℕ) (xs ys rs out : Limbs) (q : ℕ)
    → value out + q * scale rs ≡ x * value ys + value rs + 0
    → AreWords out
    → length out ≡ length rs
    → length rs ≤ length ys
    → ((rest : Limbs)
        → AreWords rest
        → length rest ≤ length ys
        → Multiplies xs ys rest (mul_limbs xs ys rest))
    → Multiplies (x ∷ xs) ys rs (elim out [ [] ↦ [] | r ∷ rest ↦ r ∷ mul_limbs xs ys rest ])
outer_step x xs ys [] [] q total words long e rounds =
    ((x + u64_mod * value xs) * value ys, omega arith, tt, refl)
outer_step x xs ys (r ∷ rs) [] q total words long e rounds = ground arith
outer_step x xs ys [] (p ∷ rest) q total words long e rounds = ground arith
outer_step x xs ys (r ∷ rs) (p ∷ rest) q total words long e rounds =
    let (k, product, words', long') = rounds rest words.1 (omega arith) in
    let same : scale rest ≡ scale rs = scale-same rest rs (omega arith) in
    let product' : value (mul_limbs xs ys rest) + k * scale rs ≡ value xs * value ys + value rest =
      rw (sym same) product in
    (
      q + k,
      outer_chain p (value (mul_limbs xs ys rest)) (value rest) q k (scale rs) x (value xs)
          (value ys) (r + u64_mod * value rs) total product',
      (words.0, words'),
      omega (arith, long'),
    )

pub mul_limbs_lem :
    (xs ys rs : Limbs)
    → AreWords xs
    → AreWords ys
    → AreWords rs
    → length rs ≤ length ys
    → Multiplies xs ys rs (mul_limbs xs ys rs)
unfolding mul_limbs
mul_limbs_lem [] ys rs hx hy hr e = (0, omega arith, hr, refl)
mul_limbs_lem (x ∷ xs) ys rs hx hy hr e =
    let (q, total, words, long) = mul_limb_lem x ys rs 0 hx.0 (omega arith) hy hr e in
    outer_step x xs ys rs (mul_limb x ys rs 0) q total words long e
      (λ rest. λ hrest. λ short. mul_limbs_lem xs ys rest hx.1 hy hrest short)
