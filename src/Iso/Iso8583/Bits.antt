-- ===== src/Iso/Iso8583/Bits.antt =====
-- The bits of the bitmaps of iso8583.rs.
use nexus_chain.Base.{
  ℕ, zero, suc, ◌+◌, ◌-◌, ◌/◌, ◌^◌, ◌<◌, ◌≡◌, ap, ◌∙◌, true, ◌&&◌, List, [], ◌∷◌, inl, inr, arith,
  if◌then◌else◌, ◌==◌, leb, ltb, elem, Bool-cases, ==→eq,
}
use nexus_chain.Iso.Iso8583.{test_bit, set_bit}

half_set : (b : ℕ) → set_bit 0 b / 2 ≡ b / 2
half_set b = ground arith

half_set_suc : (k b : ℕ) → set_bit (suc k) b / 2 ≡ set_bit k (b / 2)
half_set_suc k b = omega arith

-- Setting a bit sets it and no other.
pub test_bit-set_bit :
    (j k b : ℕ) → test_bit j (set_bit k b) ≡ (if j == k then true else test_bit j b)
test_bit-set_bit zero zero b = ground arith
test_bit-set_bit zero (suc k) b = ground arith
test_bit-set_bit (suc j) zero b = ap (test_bit j) (half_set b) ∙ ground arith
test_bit-set_bit (suc j) (suc k) b =
    ap (test_bit j) (half_set_suc k b) ∙ test_bit-set_bit j k (b / 2) ∙ ground arith

pub set_bit-bound : (w k b : ℕ) → k < w → b < 2 ^ w → set_bit k b < 2 ^ w
set_bit-bound zero k b lt bound = omega arith
set_bit-bound (suc w) zero b lt bound = ground arith
set_bit-bound (suc w) (suc k) b lt bound =
    omega (arith, set_bit-bound w k (b / 2) (omega arith) (omega arith))

-- The ids of the set bits, of the `n` ids from `bit` up.
unfoldable pub ids_of : ℕ → ℕ → ℕ → ℕ → List ℕ
ids_of last bitmap zero bit = []
ids_of last bitmap (suc n) bit =
    let rest = ids_of last bitmap n (bit + 1) in
    if test_bit (last - bit) bitmap then bit ∷ rest else rest

pub elem-ids_of :
    (last bitmap n bit k : ℕ)
    → elem k (ids_of last bitmap n bit)
      ≡ (leb bit k && ltb k (bit + n) && test_bit (last - k) bitmap)
unfolding ids_of
elem-ids_of last bitmap zero bit k = ground arith
elem-ids_of last bitmap (suc n) bit k = elim (Bool-cases (k == bit)) [
  | inl same ↦ ground (arith, elem-ids_of last bitmap n (bit + 1) k, ==→eq k bit same)
  | inr other ↦ ground (arith, elem-ids_of last bitmap n (bit + 1) k)
]
