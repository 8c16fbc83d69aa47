-- ===== src/Iso/Iso8583/Fields.antt =====
-- A field of iso8583.rs is read back as it was written.
use nexus_chain.Base.{
  ℕ, zero, suc, ◌-◌, ◌<◌, ◌≤◌, ◌≡◌, refl, sym, ◌∙◌, ap, false, List, [], ◌∷◌, ◌++◌, some, ok, inl,
  inr, arith, ltb, length, take, All, length-append, Bool-cases,
}
use mathlib.Core.Path.{subst}
use mathlib.Core.List.{append_assoc, append-nil}
use nexus_chain.Base.Bytes.{take-append, drop-append}
use nexus_chain.Iso.Iso8583.{
  FieldEncoding, fixed, ll_var, lll_var, field_runs, encoding_at, field_encoding, spaces, decimal2,
  decimal3, encode_as, encode_field, parse_usize, take_bytes, take_prefixed, decode_as,
  decode_field,
}

-- A value that its field holds without padding or cut.
abbrev pub FitsIn : FieldEncoding → List ℕ → Type 0
FitsIn (fixed len) value = length value ≡ len
FitsIn (ll_var max) value = length value ≤ max
FitsIn (lll_var max) value = length value ≤ max

abbrev pub Fits : ℕ → List ℕ → Type 0
Fits id value = (e : FieldEncoding) × (field_encoding id ≡ some e) × FitsIn e value

-- The maxima leave room for the length in the digits of the prefix.
abbrev IsNarrow : FieldEncoding → Type 0
IsNarrow (fixed len) = Unit
IsNarrow (ll_var max) = max < 100
IsNarrow (lll_var max) = max < 1000

encoding_at-IsNarrow :
    (runs : List (ℕ × FieldEncoding))
    → All (λ r. IsNarrow r.1) runs
    → (i : ℕ) (e : FieldEncoding) → encoding_at i runs ≡ some e
    → IsNarrow e
encoding_at-IsNarrow [] a i e h = ground arith
encoding_at-IsNarrow ((n, e') ∷ runs) a i e h = elim (Bool-cases (ltb i n)) [
  | inl here ↦ subst IsNarrow (ground arith) a.0
  | inr later ↦ encoding_at-IsNarrow runs a.1 (i - n) e (ground arith)
]

field_runs-IsNarrow : All (λ r. IsNarrow r.1) field_runs
field_runs-IsNarrow = ground arith

field_encoding-IsNarrow : (id : ℕ) (e : FieldEncoding) → field_encoding id ≡ some e → IsNarrow e
unfolding field_encoding
field_encoding-IsNarrow zero e h = ground arith
field_encoding-IsNarrow (suc i) e h = encoding_at-IsNarrow field_runs field_runs-IsNarrow i e h

pub take_bytes-append : (xs ys : List ℕ) → take_bytes (length xs) (xs ++ ys) ≡ ok (xs, ys)
take_bytes-append xs ys = rw (fits_in, take-append xs ys, drop-append xs ys) refl
  where
    fits_in : ltb (length (xs ++ ys)) (length xs) ≡ false
    fits_in = ground (arith, length-append xs ys)

parse_usize-decimal2 : (n : ℕ) → n < 100 → parse_usize (decimal2 n) ≡ some n
parse_usize-decimal2 n lt = ground arith

parse_usize-decimal3 : (n : ℕ) → n < 1000 → parse_usize (decimal3 n) ≡ some n
parse_usize-decimal3 n lt = ground arith

take_prefixed-append :
    (n : ℕ) (prefix value rest : List ℕ)
    → length prefix ≡ n
    → parse_usize prefix ≡ some (length value)
    → take_prefixed n ((prefix ++ value) ++ rest) ≡ ok (value, rest)
take_prefixed-append n prefix value rest len parsed =
    ap (take_prefixed n) (append_assoc prefix value rest)
    ∙ ap (λ k. take_prefixed k (prefix ++ (value ++ rest))) (sym len)
    ∙ rw (take_bytes-append prefix (value ++ rest), parsed, take_prefixed)
        (take_bytes-append value rest)

take-all : (value : List ℕ) → take (length value) value ≡ value
take-all [] = refl
take-all (b ∷ bs) = ap (λ l. b ∷ l) (take-all bs)

-- A value of exactly the length is neither padded nor cut.
exact : (value : List ℕ) → take (length value) value ++ spaces (length value - length value) ≡ value
exact value =
    ap (λ n. take (length value) value ++ spaces n) none_left
    ∙ append-nil (take (length value) value)
    ∙ take-all value
  where
    none_left : length value - length value ≡ 0
    none_left = omega arith

decode_as-encode_as :
    (e : FieldEncoding) (value rest : List ℕ)
    → IsNarrow e
    → FitsIn e value
    → (bytes : List ℕ) × (encode_as e value ≡ ok bytes)
      × (decode_as e (bytes ++ rest) ≡ ok (value, rest))
decode_as-encode_as (fixed len) value rest narrow fits = (
  value,
  ap (λ n. ok (take n value ++ spaces (n - length value))) (sym fits) ∙ ap ok (exact value),
  ap (λ n. take_bytes n (value ++ rest)) (sym fits) ∙ take_bytes-append value rest,
)
decode_as-encode_as (ll_var max) value rest narrow fits = (
  decimal2 (length value) ++ value,
  ground arith,
  take_prefixed-append 2 (decimal2 (length value)) value rest refl
      (parse_usize-decimal2 (length value) (omega arith)),
)
decode_as-encode_as (lll_var max) value rest narrow fits = (
  decimal3 (length value) ++ value,
  ground arith,
  take_prefixed-append 3 (decimal3 (length value)) value rest refl
      (parse_usize-decimal3 (length value) (omega arith)),
)

-- A value that fits its field is written, and read back with what follows it left over.
pub decode_field-encode_field :
    (id : ℕ) (value rest : List ℕ)
    → Fits id value
    → (bytes : List ℕ) × (encode_field id value ≡ ok bytes)
      × (decode_field id (bytes ++ rest) ≡ ok (value, rest))
unfolding encode_field decode_field
decode_field-encode_field id value rest (e, known, fits) =
    let (bytes, written, read) =
      decode_as-encode_as e value rest (field_encoding-IsNarrow id e known) fits in
    (bytes, rw known written, rw known read)
