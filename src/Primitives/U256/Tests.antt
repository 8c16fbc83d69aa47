-- ===== src/Primitives/U256/Tests.antt =====
-- Numbers of types.rs that carry from limb to limb.
use nexus_chain.Base.{◌≡◌, refl, some, [], ◌∷◌, arith}
use Prim.Native.Nat.{compare}
use nexus_chain.Primitives.Number.{add256, sub256, mul256}
use nexus_chain.Primitives.U256.{
  Limbs, checked_add, add_limbs, checked_sub, cmp_limbs, mul, mul_limbs, mul_limb,
}
use nexus_chain.Primitives.U256.{limbs_to_bytes, from_be_bytes}
use nexus_chain.Primitives.U256.RoundTrip.{from_be_bytes_lem}
use nexus_chain.Primitives.U256.Value.{value}
use nexus_chain.Primitives.U256.Refines.{IsU256, value_of, GivesU256, limb_operators_lem}

abbrev full : Limbs
full = 18446744073709551615 ∷ 18446744073709551615 ∷ 18446744073709551615 ∷ 7 ∷ []

abbrev small : Limbs
small = 1 ∷ 5 ∷ 0 ∷ 0 ∷ []

full-IsU256 : IsU256 full
full-IsU256 = record {
  words = (omega arith, (omega arith, (omega arith, (omega arith, tt))));
  four = refl;
}

small-IsU256 : IsU256 small
small-IsU256 = record {
  words = (omega arith, (omega arith, (omega arith, (omega arith, tt))));
  four = refl;
}

limb_operators_lem_example :
    (value_of (checked_add full small) ≡ add256 (value full) (value small))
    × (value_of (checked_sub full small) ≡ sub256 (value full) (value small))
    × (cmp_limbs full small ≡ compare (value full) (value small))
    × (value (mul full small) ≡ mul256 (value full) (value small))
    × GivesU256 (checked_add full small)
    × GivesU256 (checked_sub full small)
    × IsU256 (mul full small)
limb_operators_lem_example = limb_operators_lem full small full-IsU256 small-IsU256

-- The carry runs through three limbs.
carried : checked_add full small ≡ some (0 ∷ 5 ∷ 0 ∷ 8 ∷ [])
unfolding checked_add add_limbs
carried = refl

-- As in the test of the full-width product.
squared :
    mul (18446744073709551615 ∷ 0 ∷ 0 ∷ 0 ∷ []) (2 ∷ 0 ∷ 0 ∷ 0 ∷ [])
    ≡ 18446744073709551614 ∷ 1 ∷ 0 ∷ 0 ∷ []
unfolding mul mul_limbs mul_limb
squared = refl

from_be_bytes_lem_example : from_be_bytes (limbs_to_bytes full) ≡ full
from_be_bytes_lem_example = from_be_bytes_lem full full-IsU256
