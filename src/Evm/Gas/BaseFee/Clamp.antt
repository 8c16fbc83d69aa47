-- ===== src/Evm/Gas/BaseFee/Clamp.antt =====
-- The bounds that `next_base_fee` of gas.rs puts a fee into.
use nexus_chain.Base.{
  ℕ, ◌-◌, ◌≤◌, ◌<◌, max, ◌≡◌, ◌∙◌, ap, some, arith, ltb, ltb-false, inl, inr, ◌⊎◌, Option-cases,
  Bool-cases,
}
use nexus_chain.Evm.Gas.Fees.{FeeMarket, capped}

-- A fee within the configured bounds.
pub record InBounds (m : FeeMarket) (fee : ℕ) : Type 0 where
  pub above_min : m.min_base_fee ≤ fee
  pub below_max : (top : ℕ) → m.max_base_fee ≡ some top → fee ≤ top

-- A fee put into the bounds, from the minimum up and the maximum down.
abbrev pub clamped : FeeMarket → ℕ → ℕ
clamped m fee = capped m.max_base_fee (max fee m.min_base_fee)

module _ (m : FeeMarket) (fee : ℕ) where
  pub clamped-InBounds :
      ((top : ℕ) → m.max_base_fee ≡ some top → m.min_base_fee ≤ top) → InBounds m (clamped m fee)
  clamped-InBounds ordered = elim (Option-cases m.max_base_fee) [
    | inl free ↦ record { above_min = ground arith; below_max = λ top e. cc }
    | inr (top, set) ↦ record {
      above_min = ground (arith, ordered top);
      below_max = λ t e. ground arith;
    }
  ]

  pub clamped_inside : InBounds m fee → clamped m fee ≡ fee
  clamped_inside h = elim (Option-cases m.max_base_fee) [
    | inl free ↦ ground (arith, h.above_min)
    | inr (top, set) ↦ ground (arith, h.above_min, h.below_max top)
  ]

  -- Clamping brings no fee further from one that is within the bounds, nor to its other side.
  pub clamped_near :
      (base : ℕ)
      → InBounds m base
      → (clamped m fee - base ≤ fee - base)
        × (base - clamped m fee ≤ base - fee)
        × (base < fee → (base < clamped m fee) ⊎ (m.max_base_fee ≡ some base))
  clamped_near base h = elim (Option-cases m.max_base_fee) [
    | inl free ↦
        (ground (arith, h.above_min), ground (arith, h.above_min), λ up. inl (ground arith))
    | inr (top, set) ↦ (
      ground (arith, h.above_min, h.below_max top),
      ground (arith, h.above_min, h.below_max top),
      λ up. elim (Bool-cases (ltb base top)) [
        | inl room ↦ inl (ground arith)
        | inr tight ↦
            inr (set ∙ ap some (omega (arith, h.below_max top set, ltb-false base top tight)))
      ],
    )
  ]
