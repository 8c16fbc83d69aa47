-- ===== src/Primitives/U256/RoundTrip.antt =====
-- The bytes of a `U256` of types.rs.
use nexus_chain.Base.{
  ℕ, ◌*◌, ◌<◌, ◌≡◌, refl, sym, ap, ◌∙◌, List, [], ◌∷◌, ◌++◌, arith, length, take, drop, to_be_bytes,
  to_le_bytes, of_le_bytes, u64_mod, length-append,
}
use nexus_chain.Base.Bytes.{of_le-to_le, length-to_be_bytes, take-append, drop-append}
use mathlib.Core.List.{reverse-reverse, append_assoc, append-nil}
use nexus_chain.Primitives.U256.{Limbs, limbs_to_bytes, limbs_of_bytes, of_be_bytes, from_be_bytes}
use nexus_chain.Primitives.U256.Value.{AreWords}
use nexus_chain.Primitives.U256.Refines.{IsU256}

of_be-to_be : (n : ℕ) → n < u64_mod → of_be_bytes (to_be_bytes 8 n) ≡ n
unfolding to_be_bytes
of_be-to_be n h = ap of_le_bytes (reverse-reverse (to_le_bytes 8 n)) ∙ of_le-to_le 8 n h

length-limbs_to_bytes : (xs : Limbs) → length (limbs_to_bytes xs) ≡ length xs * 8
unfolding limbs_to_bytes
length-limbs_to_bytes [] = refl
length-limbs_to_bytes (x ∷ xs) = omega (
  arith,
  length-append (limbs_to_bytes xs) (to_be_bytes 8 x),
  length-to_be_bytes 8 x,
  length-limbs_to_bytes xs,
)

-- The bytes of one limb, between those of the higher limbs and the rest.
read_limb :
    (xs : Limbs) (x : ℕ) (rest : List ℕ)
    → x < u64_mod
    → of_be_bytes (take 8 (drop (length xs * 8) (limbs_to_bytes xs ++ (to_be_bytes 8 x ++ rest))))
      ≡ x
read_limb xs x rest h =
    let bytes = to_be_bytes 8 x in
    ap (λ n. of_be_bytes (take 8 (drop n (limbs_to_bytes xs ++ (bytes ++ rest)))))
      (sym (length-limbs_to_bytes xs))
    ∙ ap (λ l. of_be_bytes (take 8 l)) (drop-append (limbs_to_bytes xs) (bytes ++ rest))
    ∙ ap (λ n. of_be_bytes (take n (bytes ++ rest))) (sym (length-to_be_bytes 8 x))
    ∙ ap of_be_bytes (take-append bytes rest)
    ∙ of_be-to_be x h

of_bytes-to_bytes :
    (xs : Limbs) (rest : List ℕ)
    → AreWords xs
    → limbs_of_bytes (length xs) (limbs_to_bytes xs ++ rest) ≡ xs
unfolding limbs_of_bytes limbs_to_bytes
of_bytes-to_bytes [] rest h = refl
of_bytes-to_bytes (x ∷ xs) rest h =
    let bytes = to_be_bytes 8 x in
    ap (λ l. of_be_bytes (take 8 (drop (length xs * 8) l)) ∷ limbs_of_bytes (length xs) l)
      (append_assoc (limbs_to_bytes xs) bytes rest)
    ∙ ap (λ n. n ∷ limbs_of_bytes (length xs) (limbs_to_bytes xs ++ (bytes ++ rest)))
        (read_limb xs x rest h.0)
    ∙ ap (λ l. x ∷ l) (of_bytes-to_bytes xs (bytes ++ rest) h.1)

-- The 32 bytes of a number give it back.
pub from_be_bytes_lem : (xs : Limbs) → IsU256 xs → from_be_bytes (limbs_to_bytes xs) ≡ xs
unfolding from_be_bytes
from_be_bytes_lem xs x =
    ap (λ n. limbs_of_bytes n (limbs_to_bytes xs)) (sym x.four)
    ∙ ap (limbs_of_bytes (length xs)) (sym (append-nil (limbs_to_bytes xs)))
    ∙ of_bytes-to_bytes xs [] x.words
