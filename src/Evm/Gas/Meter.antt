-- ===== src/Evm/Gas/Meter.antt =====
-- `GasMeter` of gas.rs.
use nexus_chain.Base.{
  ℕ, ◌+◌, ◌*◌, ◌/◌, ◌≤◌, ◌<◌, min, ◌≡◌, List, [], ◌∷◌, arith, if◌then◌else◌, ltb, Result, ok, err,
  saturating_add64, saturating_sub64, u64_mod,
}
use nexus_chain.Evm.Gas.Schedule.{GasSchedule}

pub record GasMeter : Type 0 where
  pub gas_limit : ℕ
  pub gas_used : ℕ
  pub gas_refunded : ℕ
  pub schedule : GasSchedule

abbrev pub new : ℕ → GasSchedule → GasMeter
new gas_limit schedule = record {
  gas_limit = gas_limit;
  gas_used = 0;
  gas_refunded = 0;
  schedule = schedule;
}

unfoldable pub consume : GasMeter → ℕ → Result (Unit {0}) (Unit {0}) × GasMeter
consume m amount =
    let new_used = saturating_add64 m.gas_used amount in
    if ltb m.gas_limit new_used then (err tt, m) else (ok tt, record m { gas_used = new_used })

unfoldable pub refund : GasMeter → ℕ → GasMeter
refund m amount = record m { gas_refunded = saturating_add64 m.gas_refunded amount }

abbrev pub remaining : GasMeter → ℕ
remaining m = saturating_sub64 m.gas_limit m.gas_used

unfoldable pub refunded : GasMeter → ℕ
refunded m = min m.gas_refunded (m.gas_used / 5)

unfoldable pub final_used : GasMeter → ℕ
unfolding refunded
final_used m = saturating_sub64 m.gas_used (refunded m)

pub data MeterCall : Type 0 where
  consume_call refund_call : ℕ → MeterCall

unfoldable pub meter_step : GasMeter → MeterCall → GasMeter
meter_step m (consume_call n) = (consume m n).1
meter_step m (refund_call n) = refund m n

unfoldable pub meter_run : GasMeter → List MeterCall → GasMeter
meter_run m [] = m
meter_run m (c ∷ cs) = meter_run (meter_step m c) cs

pub record IsMetered (limit : ℕ) (m : GasMeter) : Type 0 where
  pub limit_kept : m.gas_limit ≡ limit
  pub within : m.gas_used ≤ limit

meter_step-IsMetered :
    (limit : ℕ) (m : GasMeter) (c : MeterCall)
    → IsMetered limit m
    → IsMetered limit (meter_step m c)
unfolding meter_step consume refund
meter_step-IsMetered limit m (consume_call n) h = ground arith
meter_step-IsMetered limit m (refund_call n) h = ground arith

meter_run-IsMetered :
    (limit : ℕ) (m : GasMeter) (cs : List MeterCall)
    → IsMetered limit m
    → IsMetered limit (meter_run m cs)
unfolding meter_run
meter_run-IsMetered limit m [] h = h
meter_run-IsMetered limit m (c ∷ cs) h =
    meter_run-IsMetered limit (meter_step m c) cs (meter_step-IsMetered limit m c h)

-- After any charges and refunds: what is used and what remains make up the limit, and the final bill
-- is at least four fifths of what was used and at most all of it.
pub meter_run_lem :
    (limit : ℕ) (s : GasSchedule) (cs : List MeterCall)
    → let m = meter_run (new limit s) cs in
      (m.gas_used + remaining m ≡ limit)
      × (final_used m ≤ m.gas_used)
      × (m.gas_used * 4 ≤ final_used m * 5)
unfolding final_used
meter_run_lem limit s cs =
    let h = meter_run-IsMetered limit (new limit s) cs (omega arith) in
    let m = meter_run (new limit s) cs in
    (omega (arith, h.limit_kept, h.within), omega arith, omega arith)

-- A charge goes through exactly when it is covered by the gas that remains, and then it is what is
-- taken; a charge that is refused takes nothing. The limit is a u64 below the largest one.
consume_lem :
    (m : GasMeter) (n : ℕ)
    → m.gas_used ≤ m.gas_limit
    → m.gas_limit + 1 < u64_mod
    → (((consume m n).0 ≡ ok tt) → (n ≤ remaining m) × ((consume m n).1.gas_used ≡ m.gas_used + n))
      × (n ≤ remaining m → (consume m n).0 ≡ ok tt)
      × ((consume m n).0 ≡ err tt → (consume m n).1 ≡ m)
unfolding consume
consume_lem m n h small = (λ e. ground arith, λ e. ground arith, λ e. ground arith)
