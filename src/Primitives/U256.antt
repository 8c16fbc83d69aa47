-- ===== src/Primitives/U256.antt =====
-- `U256` of crates/nexus-primitives/src/types.rs: four limbs of 64 bits, the lowest first. The
-- limbs are a list, which the loops `for i in 0..4` go along.
pub mod Value
pub mod Product
pub mod Refines
pub mod RoundTrip
mod Tests
use nexus_chain.Base.{
  ℕ, ◌+◌, ◌*◌, ◌/◌, ◌%◌, Bool, Option, none, some, List, [], ◌∷◌, if◌then◌else◌, ltb, ◌==◌, u64_mod,
  sub64, add64, zero, suc, ◌++◌, reverse, take, drop, to_be_bytes, of_le_bytes,
}
use Prim.Native.Nat.{compare, Ordering}

abbrev pub Limbs : Type 0
Limbs = List ℕ

-- The carry that `overflowing_add` reports.
abbrev pub carry_of : ℕ → ℕ → ℕ
carry_of a b = if ltb (a + b) u64_mod then 0 else 1

-- The loop of `checked_add` from a limb on, with its carry: the limbs of the result and the last
-- carry.
unfoldable pub add_limbs : Limbs → Limbs → ℕ → Limbs × ℕ
add_limbs (a ∷ xs) (b ∷ ys) carry =
    let sum1 = add64 a b in
    let sum2 = add64 sum1 carry in
    let (rest, last) = add_limbs xs ys (carry_of a b + carry_of sum1 carry) in (sum2 ∷ rest, last)
add_limbs _ _ carry = ([], carry)

unfoldable pub checked_add : Limbs → Limbs → Option Limbs
checked_add xs ys =
    let (result, carry) = add_limbs xs ys 0 in if ltb 0 carry then none else some result

abbrev pub borrow_of : ℕ → ℕ → ℕ
borrow_of a b = if ltb a b then 1 else 0

unfoldable pub sub_limbs : Limbs → Limbs → ℕ → Limbs × ℕ
sub_limbs (a ∷ xs) (b ∷ ys) borrow =
    let diff1 = sub64 a b in
    let diff2 = sub64 diff1 borrow in
    let (rest, last) = sub_limbs xs ys (borrow_of a b + borrow_of diff1 borrow) in
    (diff2 ∷ rest, last)
sub_limbs _ _ borrow = ([], borrow)

unfoldable pub checked_sub : Limbs → Limbs → Option Limbs
checked_sub xs ys =
    let (result, borrow) = sub_limbs xs ys 0 in if ltb 0 borrow then none else some result

-- `cmp`: the limbs from the highest down; the first that differ decide.
unfoldable pub cmp_limbs : Limbs → Limbs → Ordering
cmp_limbs (a ∷ xs) (b ∷ ys) = elim (cmp_limbs xs ys) [
  | Ordering.eq ↦ compare a b
  | Ordering.lt ↦ Ordering.lt
  | Ordering.gt ↦ Ordering.gt
]
cmp_limbs _ _ = Ordering.eq

-- The inner loop of `mul` for one limb `x`, along the limbs of `result` from its place on. The
-- product of two words and two words more fit in a u128, and the carry past the last limb is
-- dropped.
unfoldable pub mul_limb : ℕ → Limbs → Limbs → ℕ → Limbs
mul_limb x (y ∷ ys) (r ∷ rs) carry =
    let product = x * y + r + carry in
    product % u64_mod ∷ mul_limb x ys rs (product / u64_mod % u64_mod)
mul_limb x _ _ carry = []

-- The outer loop of `mul`: a round settles the lowest limb, and the next works from the one above.
unfoldable pub mul_limbs : Limbs → Limbs → Limbs → Limbs
mul_limbs [] ys rs = rs
mul_limbs (x ∷ xs) ys rs = elim (mul_limb x ys rs 0) [
  | [] ↦ []
  | r ∷ rest ↦ r ∷ mul_limbs xs ys rest
]

unfoldable pub mul : Limbs → Limbs → Limbs
mul xs ys = mul_limbs xs ys (0 ∷ 0 ∷ 0 ∷ 0 ∷ [])

abbrev pub from_u64 : ℕ → Limbs
from_u64 n = n ∷ 0 ∷ 0 ∷ 0 ∷ []

-- `to_be_bytes`: the bytes of the highest limb first.
unfoldable pub limbs_to_bytes : Limbs → List ℕ
limbs_to_bytes [] = []
limbs_to_bytes (x ∷ xs) = limbs_to_bytes xs ++ to_be_bytes 8 x

-- `u64::from_be_bytes`
abbrev pub of_be_bytes : List ℕ → ℕ
of_be_bytes bytes = of_le_bytes (reverse bytes)

-- The loop of `from_be_bytes`: with `n` limbs to come, the limb is at byte `n * 8`.
unfoldable pub limbs_of_bytes : ℕ → List ℕ → Limbs
limbs_of_bytes zero bytes = []
limbs_of_bytes (suc n) bytes = of_be_bytes (take 8 (drop (n * 8) bytes)) ∷ limbs_of_bytes n bytes

unfoldable pub from_be_bytes : List ℕ → Limbs
from_be_bytes bytes = limbs_of_bytes 4 bytes
