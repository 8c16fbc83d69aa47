-- ===== src/Base/Words.antt =====
-- Machine words. The release profile of Cargo.toml leaves overflow checks off, so `+`, `-` and
-- `*` on u64 and u128 wrap; `as u64` keeps the low bits; `saturating_*` stop at the ends.
use Prim.Native.Nat.{ℕ, zero, suc, ◌+◌, ◌-◌, ◌*◌, ◌/◌, ◌%◌, ◌^◌}
use mathlib.Core.List.{List, [], ◌∷◌, reverse}
use nexus_chain.Base.Tests.{ltb, if◌then◌else◌}
use nexus_chain.Base.Lists.{sum}

abbrev pub u64_mod : ℕ
u64_mod = 2 ^ 64

abbrev pub u128_mod : ℕ
u128_mod = 2 ^ 128

abbrev pub u256_mod : ℕ
u256_mod = 2 ^ 256

abbrev pub add64 : ℕ → ℕ → ℕ
add64 a b = (a + b) % u64_mod

abbrev pub sub64 : ℕ → ℕ → ℕ
sub64 a b = (a + u64_mod - b) % u64_mod

abbrev pub mul64 : ℕ → ℕ → ℕ
mul64 a b = (a * b) % u64_mod

abbrev pub add128 : ℕ → ℕ → ℕ
add128 a b = (a + b) % u128_mod

abbrev pub mul128 : ℕ → ℕ → ℕ
mul128 a b = (a * b) % u128_mod

abbrev pub saturating_add64 : ℕ → ℕ → ℕ
saturating_add64 a b = if ltb (a + b) u64_mod then a + b else u64_mod - 1

abbrev pub saturating_sub64 : ℕ → ℕ → ℕ
saturating_sub64 a b = a - b

abbrev pub saturating_mul64 : ℕ → ℕ → ℕ
saturating_mul64 a b = if ltb (a * b) u64_mod then a * b else u64_mod - 1

-- `Iterator::sum` over u64 and u128: a wrapping sum is the sum modulo the word.
abbrev pub sum64 : List ℕ → ℕ
sum64 xs = sum xs % u64_mod

abbrev pub sum128 : List ℕ → ℕ
sum128 xs = sum xs % u128_mod

-- `to_le_bytes` of a word of `w` bytes.
unfoldable pub to_le_bytes : ℕ → ℕ → List ℕ
to_le_bytes zero n = []
to_le_bytes (suc w) n = n % 256 ∷ to_le_bytes w (n / 256)

-- `to_be_bytes`: the same bytes, the most significant first.
unfoldable pub to_be_bytes : ℕ → ℕ → List ℕ
to_be_bytes w n = reverse (to_le_bytes w n)

-- `from_le_bytes`
abbrev pub of_le_bytes : List ℕ → ℕ
of_le_bytes [] = 0
of_le_bytes (b ∷ bs) = b + 256 * of_le_bytes bs
