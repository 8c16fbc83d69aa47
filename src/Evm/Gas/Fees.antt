-- ===== src/Evm/Gas/Fees.antt =====
-- `FeeMarket` of gas.rs: the base fee of the next block and the price of a transaction. Fees are
-- 256-bit numbers, and `none` is a panic of their operators.
use nexus_chain.Base.{
  ℕ, ◌+◌, ◌-◌, ◌≤◌, ◌<◌, min, max, ◌≡◌, Bool, true, ◌&&◌, Option, none, some, arith, if◌then◌else◌,
  ◌==◌, ltb, leb, u256_mod,
}
use nexus_chain.Primitives.Number.{add256, sub256, mul256, div256}

pub record FeeMarket : Type 0 where
  pub base_fee_per_gas : ℕ
  pub max_change_denominator : ℕ
  pub target_gas_per_block : ℕ
  pub gas_limit : ℕ
  pub min_base_fee : ℕ
  pub max_base_fee : Option ℕ

abbrev pub default_market : FeeMarket
default_market = record {
  base_fee_per_gas = 1000000000;
  max_change_denominator = 8;
  target_gas_per_block = 15000000;
  gas_limit = 30000000;
  min_base_fee = 1000000;
  max_base_fee = none;
}

-- `base * delta / target / denominator`
unfoldable pub fee_delta : FeeMarket → ℕ → Option ℕ
fee_delta m gas_delta = elim (div256 (mul256 m.base_fee_per_gas gas_delta) m.target_gas_per_block) [
  | none ↦ none
  | some q ↦ div256 q m.max_change_denominator
]

unfoldable pub raised : FeeMarket → ℕ → Option ℕ
raised m gas_delta = elim (fee_delta m gas_delta) [
  | none ↦ none
  | some d ↦ add256 m.base_fee_per_gas (max d 1)
]

-- `checked_sub(…).unwrap_or(ZERO)`
unfoldable pub lowered : FeeMarket → ℕ → Option ℕ
lowered m gas_delta = elim (fee_delta m gas_delta) [
  | none ↦ none
  | some d ↦ elim (sub256 m.base_fee_per_gas d) [ none ↦ some 0 | some r ↦ some r ]
]

abbrev pub capped : Option ℕ → ℕ → ℕ
capped none fee = fee
capped (some top) fee = min fee top

abbrev pub bounded : FeeMarket → Option ℕ → Option ℕ
bounded m none = none
bounded m (some fee) = some (capped m.max_base_fee (max fee m.min_base_fee))

unfoldable pub next_base_fee : FeeMarket → ℕ → Option ℕ
next_base_fee m gas_used =
    if gas_used == m.target_gas_per_block
    then some m.base_fee_per_gas
    else bounded m (
        if ltb m.target_gas_per_block gas_used
        then raised m (gas_used - m.target_gas_per_block)
        else lowered m (m.target_gas_per_block - gas_used))

unfoldable pub effective_gas_price : FeeMarket → ℕ → ℕ → Option ℕ
effective_gas_price m max_fee_per_gas max_priority_fee =
    elim (sub256 max_fee_per_gas m.base_fee_per_gas) [
      | none ↦ none
      | some room ↦ add256 m.base_fee_per_gas (min max_priority_fee room)
    ]

unfoldable pub validate_fee : FeeMarket → ℕ → ℕ → Bool
validate_fee m max_fee_per_gas max_priority_fee =
    leb m.base_fee_per_gas max_fee_per_gas && leb max_priority_fee max_fee_per_gas

-- The price of a transaction: a fee that `validate_fee` accepts has one, from the base fee up to the
-- lower of the maximum and the base fee with the tip; a maximum below the base fee makes it panic.
effective_gas_price_lem :
    (m : FeeMarket) (top tip : ℕ)
    → top < u256_mod
    → (validate_fee m top tip ≡ true
        → (price : ℕ) × (effective_gas_price m top tip ≡ some price)
          × (m.base_fee_per_gas ≤ price)
          × (price ≤ top)
          × (price ≤ m.base_fee_per_gas + tip))
      × (top < m.base_fee_per_gas → effective_gas_price m top tip ≡ none)
unfolding effective_gas_price validate_fee
effective_gas_price_lem m top tip fits = (
  λ valid. (
    m.base_fee_per_gas + min tip (top - m.base_fee_per_gas),
    ground arith,
    omega arith,
    ground arith,
    omega arith,
  ),
  λ low. ground arith,
)
