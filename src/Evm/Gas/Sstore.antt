-- ===== src/Evm/Gas/Sstore.antt =====
-- `sstore_gas` of gas.rs: the gas and the refund of a write to a storage slot.
use nexus_chain.Base.{
  ℕ, ◌+◌, ◌-◌, Bool, true, false, List, [], ◌∷◌, if◌then◌else◌, ◌==◌, ltb, add64, sub64,
}
use nexus_chain.Base.Int.{ℤ, pos, negsuc, ◌+ℤ◌, ◌-ℤ◌}
use nexus_chain.Evm.Gas.Schedule.{GasSchedule}

-- `as i64` of a 64-bit word
abbrev pub as_i64 : ℕ → ℤ
as_i64 word =
    if ltb word 9223372036854775808 then pos word else negsuc (18446744073709551615 - word)

-- The refund is kept as the word of its two's complement, on which `+=` and `-=` wrap around.
abbrev pub clear_refund : GasSchedule → ℕ → ℕ → ℕ → ℕ
clear_refund s original current new =
    if original == 0
    then 0
    else if current == 0
    then sub64 0 s.sstore_clear_refund
    else if new == 0
    then s.sstore_clear_refund
    else 0

abbrev pub restore_refund : GasSchedule → ℕ → ℕ → ℕ
restore_refund s original new =
    if original == new
    then if original == 0
      then sub64 s.sstore_set s.sload_warm
      else sub64 s.sstore_reset s.sload_warm
    else 0

-- The gas and the word of the refund, with `gas` from the access.
unfoldable pub sstore_word : GasSchedule → ℕ → ℕ → ℕ → ℕ → ℕ × ℕ
sstore_word s original current new gas =
    if current == new
    then (add64 gas s.sload_warm, 0)
    else if original == current
    then if original == 0
      then (add64 gas s.sstore_set, 0)
      else if new == 0
      then (add64 gas s.sstore_reset, s.sstore_clear_refund)
      else (add64 gas s.sstore_reset, 0)
    else (
      add64 gas s.sload_warm,
      add64 (clear_refund s original current new) (restore_refund s original new),
    )

-- `if is_cold { self.schedule.cold_sload } else { 0 }`
abbrev pub cold_gas : GasSchedule → Bool → ℕ
cold_gas s true = s.cold_sload
cold_gas s false = 0

unfoldable pub sstore_gas : GasSchedule → ℕ → ℕ → ℕ → Bool → ℕ × ℤ
sstore_gas s original current new is_cold =
    let (gas, refund) = sstore_word s original current new (cold_gas s is_cold) in
    (gas, as_i64 refund)

-- The writes to one slot in a transaction, each with its `is_cold`: the sums of the gas and of the
-- refunds.
unfoldable pub sstore_run : GasSchedule → ℕ → ℕ → List (ℕ × Bool) → ℕ × ℤ
sstore_run s original current [] = (0, pos 0)
sstore_run s original current ((new, is_cold) ∷ writes) =
    let (gas, refund) = sstore_gas s original current new is_cold in
    let (gases, refunds) = sstore_run s original new writes in (gas + gases, refund +ℤ refunds)

-- The value of the slot after the writes.
abbrev pub final_value : ℕ → List (ℕ × Bool) → ℕ
final_value current [] = current
final_value current ((new, _) ∷ writes) = final_value new writes

-- One warm read for each write, and the surcharge of each that is cold.
abbrev pub access_gas : GasSchedule → List (ℕ × Bool) → ℕ
access_gas s [] = 0
access_gas s ((_, is_cold) ∷ writes) = s.sload_warm + cold_gas s is_cold + access_gas s writes

-- The price of a slot that held `original` and holds `value`.
abbrev pub change_price : GasSchedule → ℕ → ℕ → ℤ
change_price s original value =
    if value == original
    then pos 0
    else if original == 0
    then pos (s.sstore_set - s.sload_warm)
    else if value == 0
    then pos (s.sstore_reset - s.sload_warm) -ℤ pos s.sstore_clear_refund
    else pos (s.sstore_reset - s.sload_warm)
