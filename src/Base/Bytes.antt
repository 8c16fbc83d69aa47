-- ===== src/Base/Bytes.antt =====
-- The bytes of a word give the word back.
use Prim.Native.Nat.{ℕ, zero, suc, ◌/◌, ◌^◌, ◌<◌}
use mathlib.Core.Path.{◌≡◌, refl, ap, sym, ◌∙◌}
use mathlib.Core.List.{List, [], ◌∷◌, ◌++◌, reverse, reverse-reverse, reverse-cons}
use native.Mathlib.Omega.{arith}
use native.Mathlib.Nat.{pow-suc}
use nexus_chain.Base.Lists.{length, length-append, take, drop}
use nexus_chain.Base.Words.{to_le_bytes, to_be_bytes, of_le_bytes}

pub of_le-to_le : (w n : ℕ) → n < 256 ^ w → of_le_bytes (to_le_bytes w n) ≡ n
unfolding to_le_bytes
of_le-to_le zero n h = omega arith
of_le-to_le (suc w) n h =
    let small : n / 256 < 256 ^ w = omega (arith, pow-suc 256 w) in
    omega (arith, of_le-to_le w (n / 256) small)

pub to_le_bytes-injective :
    (w a b : ℕ) → a < 256 ^ w → b < 256 ^ w → to_le_bytes w a ≡ to_le_bytes w b → a ≡ b
to_le_bytes-injective w a b ha hb e =
    sym (of_le-to_le w a ha) ∙ ap of_le_bytes e ∙ of_le-to_le w b hb

pub to_be_bytes-injective :
    (w a b : ℕ) → a < 256 ^ w → b < 256 ^ w → to_be_bytes w a ≡ to_be_bytes w b → a ≡ b
unfolding to_be_bytes
to_be_bytes-injective w a b ha hb e =
    to_le_bytes-injective w a b ha hb
      (sym (reverse-reverse (to_le_bytes w a)) ∙ ap reverse e ∙ reverse-reverse (to_le_bytes w b))

pub length-to_le_bytes : (w n : ℕ) → length (to_le_bytes w n) ≡ w
unfolding to_le_bytes
length-to_le_bytes zero n = refl
length-to_le_bytes (suc w) n = ap suc (length-to_le_bytes w (n / 256))

pub take-append : (xs ys : List ℕ) → take (length xs) (xs ++ ys) ≡ xs
take-append [] ys = refl
take-append (x ∷ xs) ys = ap (λ l. x ∷ l) (take-append xs ys)

pub drop-append : (xs ys : List ℕ) → drop (length xs) (xs ++ ys) ≡ ys
drop-append [] ys = refl
drop-append (x ∷ xs) ys = drop-append xs ys

-- What stands before two rests, as long on either side, and the rests.
pub append-injective :
    (xs ys us vs : List ℕ) → length xs ≡ length ys → xs ++ us ≡ ys ++ vs → (xs ≡ ys) × (us ≡ vs)
append-injective xs ys us vs same e = (
  sym (take-append xs us)
      ∙ ap (take (length xs)) e
      ∙ ap (λ n. take n (ys ++ vs)) same
      ∙ take-append ys vs,
  sym (drop-append xs us)
      ∙ ap (drop (length xs)) e
      ∙ ap (λ n. drop n (ys ++ vs)) same
      ∙ drop-append ys vs,
)

-- Two words in front of two rests.
pub word_prefix-injective :
    (w a b : ℕ) (xs ys : List ℕ)
    → a < 256 ^ w
    → b < 256 ^ w
    → to_le_bytes w a ++ xs ≡ to_le_bytes w b ++ ys
    → (a ≡ b) × (xs ≡ ys)
word_prefix-injective w a b xs ys ha hb e =
    let same : length (to_le_bytes w a) ≡ length (to_le_bytes w b) =
      length-to_le_bytes w a ∙ sym (length-to_le_bytes w b) in
    let (words, rests) = append-injective (to_le_bytes w a) (to_le_bytes w b) xs ys same e in
    (to_le_bytes-injective w a b ha hb words, rests)

pub length-reverse : (xs : List ℕ) → length (reverse xs) ≡ length xs
length-reverse [] = refl
length-reverse (x ∷ xs) =
    ap length (reverse-cons x xs)
    ∙ omega (arith, length-append (reverse xs) (x ∷ []), length-reverse xs)

pub length-to_be_bytes : (w n : ℕ) → length (to_be_bytes w n) ≡ w
unfolding to_be_bytes
length-to_be_bytes w n = length-reverse (to_le_bytes w n) ∙ length-to_le_bytes w n

pub be_prefix-injective :
    (w a b : ℕ) (xs ys : List ℕ)
    → a < 256 ^ w
    → b < 256 ^ w
    → to_be_bytes w a ++ xs ≡ to_be_bytes w b ++ ys
    → (a ≡ b) × (xs ≡ ys)
be_prefix-injective w a b xs ys ha hb e =
    let same : length (to_be_bytes w a) ≡ length (to_be_bytes w b) =
      length-to_be_bytes w a ∙ sym (length-to_be_bytes w b) in
    let (words, rests) = append-injective (to_be_bytes w a) (to_be_bytes w b) xs ys same e in
    (to_be_bytes-injective w a b ha hb words, rests)
