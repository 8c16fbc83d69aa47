-- ===== src/Evm/Gas/BaseFee.antt =====
-- The next base fee, `next_base_fee` of gas.rs.
pub mod Clamp
use nexus_chain.Base.{
  ℕ, ◌+◌, ◌-◌, ◌*◌, ◌/◌, ◌≤◌, ◌<◌, max, ◌≡◌, some, arith, if◌then◌else◌, ◌==◌, ==-false, ltb, leb,
  inl, inr, ◌⊎◌, ◌≢◌, refl, ap, ◌∙◌, Option-cases, ltb-false, Bool-cases, u256_mod,
}
use native.Mathlib.Nat.{le_trans, mod-eq_of_lt, mul-le-mul_left, mul-le-mul_right, div-mul-le_self}
use nexus_chain.Primitives.Number.{mul256}
use nexus_chain.Evm.Gas.Fees.{FeeMarket, fee_delta, raised, lowered, bounded, next_base_fee}
use nexus_chain.Evm.Gas.BaseFee.Clamp.{
  InBounds, clamped, clamped-InBounds, clamped_inside, clamped_near,
}

factor_le : (a b : ℕ) → 0 < b → a ≤ a * b
factor_le a b pos = grind arith

-- The change of the base fee for a distance `g` of the gas from its target.
abbrev pub change : FeeMarket → ℕ → ℕ
change m g = m.base_fee_per_gas * g / m.target_gas_per_block / m.max_change_denominator

product_le : (a b c : ℕ) → b ≤ c → a * b ≤ a * c
product_le a b c h = mul-le-mul_left a h

quotient_le : (a b c : ℕ) → 0 < c → a ≤ b * c → a / c ≤ b
quotient_le a b c pos h =
    let low : a / c * c ≤ b * c = le_trans (div-mul-le_self a c) h in grind arith

module _ (m : FeeMarket) (g : ℕ) where
  change_scaled :
      0 < m.target_gas_per_block
      → g ≤ m.target_gas_per_block
      → change m g * m.max_change_denominator ≤ m.base_fee_per_gas
  change_scaled target small =
      let q = m.base_fee_per_gas * g / m.target_gas_per_block in
      le_trans (div-mul-le_self q m.max_change_denominator) (
        quotient_le (m.base_fee_per_gas * g) m.base_fee_per_gas m.target_gas_per_block target
          (product_le m.base_fee_per_gas g m.target_gas_per_block small))

  fee_delta-eq-change :
      0 < m.target_gas_per_block
      → 0 < m.max_change_denominator
      → g ≤ m.target_gas_per_block
      → m.base_fee_per_gas * m.target_gas_per_block < u256_mod
      → fee_delta m g ≡ some (change m g)
  unfolding fee_delta
  fee_delta-eq-change target denom small room =
      let exact : mul256 m.base_fee_per_gas g ≡ m.base_fee_per_gas * g =
        mod-eq_of_lt
          (omega (arith, product_le m.base_fee_per_gas g m.target_gas_per_block small)) in
      rw (
        ==-false m.target_gas_per_block 0 (omega arith),
        exact,
        ==-false m.max_change_denominator 0 (omega arith),
        fee_delta,
      )

change_excess : (base d : ℕ) → base + max d 1 - base ≡ max d 1
change_excess base d = omega arith

rise_scaled :
    (base d denom : ℕ) → d * denom ≤ base → (base + max d 1 - base) * denom ≤ max base denom
rise_scaled base d denom h =
    rw (change_excess base d)
      (elim (Bool-cases (leb d 1)) [ inl few ↦ grind arith | inr more ↦ grind arith ])

fall_scaled : (base d denom : ℕ) → 0 < denom → d * denom ≤ base → (base - (base - d)) * denom ≤ base
fall_scaled base d denom pos h =
    let same : base - (base - d) ≡ d = omega (arith, factor_le d denom pos) in rw same h

-- The next base fee before its bounds.
abbrev pub raw_fee : FeeMarket → ℕ → ℕ
raw_fee m gas_used =
    if ltb m.target_gas_per_block gas_used
    then m.base_fee_per_gas + max (change m (gas_used - m.target_gas_per_block)) 1
    else m.base_fee_per_gas - change m (m.target_gas_per_block - gas_used)

module _ (m : FeeMarket) (gas_used : ℕ) (target : 0 < m.target_gas_per_block)
    (denom : 0 < m.max_change_denominator) (small : gas_used ≤ m.target_gas_per_block * 2)
    (room : m.base_fee_per_gas * m.target_gas_per_block < u256_mod)
    (fits : m.base_fee_per_gas * 2 + 1 < u256_mod) where
  change_le : (g : ℕ) → g ≤ m.target_gas_per_block → change m g ≤ m.base_fee_per_gas
  change_le g near =
      le_trans (factor_le (change m g) m.max_change_denominator denom)
        (change_scaled m g target near)

  next-eq-raw : next_base_fee m gas_used ≡ (
      if gas_used == m.target_gas_per_block
      then some m.base_fee_per_gas
      else bounded m (some (raw_fee m gas_used)))
  unfolding next_base_fee raised lowered
  next-eq-raw =
      let above = gas_used - m.target_gas_per_block in
      let below = m.target_gas_per_block - gas_used in
      ground (
        arith,
        fee_delta-eq-change m above target denom,
        fee_delta-eq-change m below target denom,
        change_le above,
        change_le below,
      )

  raw_rise :
      (raw_fee m gas_used - m.base_fee_per_gas) * m.max_change_denominator
      ≤ max m.base_fee_per_gas m.max_change_denominator
  raw_rise =
      let above = gas_used - m.target_gas_per_block in
      ground (
        arith,
        rise_scaled m.base_fee_per_gas (change m above) m.max_change_denominator
            (change_scaled m above target (omega arith)),
      )

  raw_fall :
      (m.base_fee_per_gas - raw_fee m gas_used) * m.max_change_denominator ≤ m.base_fee_per_gas
  raw_fall =
      let below = m.target_gas_per_block - gas_used in
      ground (
        arith,
        fall_scaled m.base_fee_per_gas (change m below) m.max_change_denominator denom
            (change_scaled m below target (omega arith)),
      )

no_move : (base d : ℕ) → (base - base) * d ≡ 0
no_move base d = let same : base - base ≡ 0 = omega arith in rw same (omega arith)

-- How the fee of the next block, `next`, stands to that of this one.
pub record Moves (m : FeeMarket) (gas_used next : ℕ) : Type 0 where
  pub bounds : InBounds m next
  pub rise :
      (next - m.base_fee_per_gas) * m.max_change_denominator
      ≤ max m.base_fee_per_gas m.max_change_denominator
  pub fall : (m.base_fee_per_gas - next) * m.max_change_denominator ≤ m.base_fee_per_gas
  pub busy :
      m.target_gas_per_block < gas_used
      → (m.base_fee_per_gas < next) ⊎ (m.max_base_fee ≡ some m.base_fee_per_gas)
  pub quiet : gas_used ≤ m.target_gas_per_block → next ≤ m.base_fee_per_gas

module _ (m : FeeMarket) (gas_used : ℕ) (target : 0 < m.target_gas_per_block)
    (denom : 0 < m.max_change_denominator) (small : gas_used ≤ m.target_gas_per_block * 2)
    (room : m.base_fee_per_gas * m.target_gas_per_block < u256_mod)
    (fits : m.base_fee_per_gas * 2 + 1 < u256_mod) where
  Moves-clamped :
      gas_used ≢ m.target_gas_per_block
      → InBounds m m.base_fee_per_gas
      → Moves m gas_used (clamped m (raw_fee m gas_used))
  Moves-clamped off inside =
      let raw = raw_fee m gas_used in
      let (up, down, stays_up) = clamped_near m raw m.base_fee_per_gas inside in
      let d = m.max_change_denominator in
      record {
        bounds =
            clamped-InBounds m raw (λ top e. le_trans inside.above_min (inside.below_max top e));
        rise = le_trans (mul-le-mul_right d up) (raw_rise m gas_used target denom small room fits);
        fall =
            le_trans (mul-le-mul_right d down) (raw_fall m gas_used target denom small room fits);
        busy = λ h. stays_up (ground arith);
        quiet = λ h. let low : raw ≤ m.base_fee_per_gas = ground arith in omega arith;
      }

  -- For gas up to twice a positive target, a positive denominator, no overflow and a minimum that is
  -- not above the maximum, there is a next base fee. It is the current one where the block hit its
  -- target, out of bounds or not. Otherwise it is within the bounds, and it is the unbounded fee
  -- where that is. From a fee within the bounds it stays within them, moves by at most a
  -- `max_change_denominator`-th of the fee (up: or by 1), rises above the target unless the fee is
  -- the maximum, and never rises at or below the target.
  pub next_base_fee_lem :
      ((top : ℕ) → m.max_base_fee ≡ some top → m.min_base_fee ≤ top)
      → (next : ℕ) × (next_base_fee m gas_used ≡ some next)
        × (gas_used ≡ m.target_gas_per_block → next ≡ m.base_fee_per_gas)
        × (gas_used ≢ m.target_gas_per_block → InBounds m next)
        × (gas_used ≢ m.target_gas_per_block
            → InBounds m (raw_fee m gas_used)
            → next ≡ raw_fee m gas_used)
        × (InBounds m m.base_fee_per_gas → Moves m gas_used next)
  next_base_fee_lem ordered =
      let e = next-eq-raw m gas_used target denom small room fits in
      elim (Bool-cases (gas_used == m.target_gas_per_block)) [
        | inl hit ↦
            let at : gas_used ≡ m.target_gas_per_block = ground arith in
            (
              m.base_fee_per_gas,
              e ∙ rw hit refl,
              λ _. refl,
              λ off. absurd (off at),
              λ off. absurd (off at),
              λ inside. record {
                bounds = inside;
                rise = omega (arith, no_move m.base_fee_per_gas m.max_change_denominator);
                fall = omega (arith, no_move m.base_fee_per_gas m.max_change_denominator);
                busy = λ h. omega arith;
                quiet = λ h. omega arith;
              },
            )
        | inr miss ↦
            let raw = raw_fee m gas_used in
            let off : gas_used ≢ m.target_gas_per_block = λ h. ground arith in
            (
              clamped m raw,
              e ∙ rw miss refl,
              λ h. absurd (off h),
              λ _. clamped-InBounds m raw ordered,
              λ _ inside. clamped_inside m raw inside,
              λ inside. Moves-clamped off inside,
            )
      ]
