-- ===== src/Primitives/Number.antt =====
-- The operators of `U256` on the numbers that its limbs stand for: `none` is a panic of `expect`.
use nexus_chain.Base.{
  ℕ, ◌+◌, ◌-◌, ◌*◌, ◌/◌, ◌%◌, Option, none, some, if◌then◌else◌, ltb, ◌==◌, u256_mod, u64_mod,
}

-- `checked_add`, and `+`, which unwraps it
abbrev pub add256 : ℕ → ℕ → Option ℕ
add256 a b = if ltb (a + b) u256_mod then some (a + b) else none

-- `checked_sub`, and `-`, which unwraps it
abbrev pub sub256 : ℕ → ℕ → Option ℕ
sub256 a b = if ltb a b then none else some (a - b)

-- `*`, which discards the bits above 256
abbrev pub mul256 : ℕ → ℕ → ℕ
mul256 a b = (a * b) % u256_mod

-- `checked_div`, and `/`, which unwraps it
abbrev pub div256 : ℕ → ℕ → Option ℕ
div256 a b = if b == 0 then none else some (a / b)

-- `as_u64`: the low limb
abbrev pub as_u64 : ℕ → ℕ
as_u64 a = a % u64_mod
