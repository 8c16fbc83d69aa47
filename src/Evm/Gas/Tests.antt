-- ===== src/Evm/Gas/Tests.antt =====
-- The Berlin schedule and the default fee market of gas.rs at work.
use nexus_chain.Base.{ℕ, ◌+◌, ◌*◌, ◌≤◌, ◌≡◌, ◌≢◌, refl, true, false, some, List, [], ◌∷◌, arith}
use nexus_chain.Base.Int.{pos, ◌+ℤ◌}
use nexus_chain.Evm.Gas.Schedule.{berlin}
use nexus_chain.Evm.Gas.Meter.{
  GasMeter, new, remaining, final_used, MeterCall, consume_call, refund_call, meter_run,
  meter_run_lem,
}
use nexus_chain.Evm.Gas.Fees.{FeeMarket, default_market, next_base_fee, raised, fee_delta}
use nexus_chain.Evm.Gas.BaseFee.{raw_fee, Moves, next_base_fee_lem}
use nexus_chain.Evm.Gas.BaseFee.Clamp.{InBounds}
use nexus_chain.Evm.Gas.Sstore.{sstore_gas, sstore_word, sstore_run}
use nexus_chain.Evm.Gas.Netting.{sstore_run_lem, RunBalances}

abbrev charges : List MeterCall
charges = consume_call 21000 ∷ refund_call 15000 ∷ consume_call 90000 ∷ consume_call 500 ∷ []

meter_run_lem_example :
    let m = meter_run (new 100000 berlin) charges in
    (m.gas_used + remaining m ≡ 100000)
    × (final_used m ≤ m.gas_used)
    × (m.gas_used * 4 ≤ final_used m * 5)
meter_run_lem_example = meter_run_lem 100000 berlin charges

abbrev half_used : GasMeter
half_used = record (new 100 berlin) { gas_used = 50 }

-- A full block with a maximum that cuts the rise short.
abbrev capped_market : FeeMarket
capped_market = record default_market { max_base_fee = some 1100000000 }

ordered : (top : ℕ) → capped_market.max_base_fee ≡ some top → capped_market.min_base_fee ≤ top
ordered top e = ground arith

abbrev full_block : ℕ
full_block = 30000000

next_base_fee_lem_example :
    (next : ℕ) × (next_base_fee capped_market full_block ≡ some next)
    × (full_block ≡ capped_market.target_gas_per_block → next ≡ 1000000000)
    × (full_block ≢ capped_market.target_gas_per_block → InBounds capped_market next)
    × (full_block ≢ capped_market.target_gas_per_block
        → InBounds capped_market (raw_fee capped_market full_block)
        → next ≡ raw_fee capped_market full_block)
    × (InBounds capped_market 1000000000 → Moves capped_market full_block next)
next_base_fee_lem_example =
    next_base_fee_lem capped_market full_block (omega arith) (omega arith) (omega arith)
      (omega arith) (omega arith) ordered

capped_rise : next_base_fee capped_market 30000000 ≡ some 1100000000
unfolding next_base_fee raised fee_delta
capped_rise = refl

sstore_run_lem_example :
    RunBalances berlin 5 5 ((0, true) ∷ (7, false) ∷ (0, false) ∷ (5, false) ∷ [])
sstore_run_lem_example =
    sstore_run_lem berlin
      (omega arith, omega arith, omega arith, omega arith, omega arith, omega arith) 5 5
      ((0, true) ∷ (7, false) ∷ (0, false) ∷ (5, false) ∷ [])

-- Clearing a slot and writing the value back.
clear_and_restore : sstore_run berlin 5 5 ((0, true) ∷ (5, false) ∷ []) ≡ (5100, pos 2800)
unfolding sstore_run sstore_gas sstore_word ◌+ℤ◌
clear_and_restore = refl
