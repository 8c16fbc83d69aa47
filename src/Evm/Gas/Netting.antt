-- ===== src/Evm/Gas/Netting.antt =====
-- What several writes to one slot cost, by `sstore_gas` of gas.rs.
use nexus_chain.Base.{
  ℕ, ◌+◌, ◌-◌, ◌≤◌, ◌<◌, ◌≡◌, ◌≢◌, Bool, true, false, List, [], ◌∷◌, arith, if◌then◌else◌, ==-refl,
  ltb, add64, sub64, Bool-cases, inl, inr,
}
use nexus_chain.Base.Int.{ℤ, pos, ◌+ℤ◌, ◌-ℤ◌, int_laws}
use nexus_chain.Evm.Gas.Schedule.{GasSchedule}
use nexus_chain.Evm.Gas.Sstore.{
  as_i64, sstore_word, cold_gas, sstore_gas, sstore_run, final_value, access_gas, change_price,
}

abbrev pub IsSmall : GasSchedule → Type 0
IsSmall s =
    (s.sload_warm ≤ s.sstore_set)
    × (s.sload_warm ≤ s.sstore_reset)
    × (s.sstore_set < 4611686018427387904)
    × (s.sstore_reset < 4611686018427387904)
    × (s.sstore_clear_refund < 4611686018427387904)
    × (s.cold_sload < 4611686018427387904)

small_word :
    (d c : ℕ)
    → d < 4611686018427387904
    → c < 4611686018427387904
    → add64 (sub64 0 c) d ≡ (if ltb d c then 18446744073709551616 - (c - d) else d - c)
small_word d c hd hc = elim (Bool-cases (ltb d c)) [
  | inl lt ↦ rw lt (ground arith)
  | inr ge ↦ rw ge (ground arith)
]

i64_sub :
    (d c : ℕ)
    → d < 4611686018427387904
    → c < 4611686018427387904
    → as_i64 (add64 (sub64 0 c) d) ≡ pos d -ℤ pos c
unfolding ◌-ℤ◌
i64_sub d c hd hc = rw (small_word d c hd hc) (ground arith)

-- The step over the numbers: `a` the access, `w` the warm read, `p` the price of the first change,
-- `c` the refund for clearing.
module _ (a w p c : ℕ) (a_small : a < 4611686018427387904) (w_le : w ≤ p)
    (p_small : p < 4611686018427387904) (c_small : c < 4611686018427387904) where
  i64_pos : as_i64 c ≡ pos c
  i64_pos = ground arith

  same_step : (v : ℤ) → pos (add64 a w) +ℤ v ≡ pos 0 +ℤ pos (w + a) +ℤ v
  same_step v = grind int_laws

  set_step : pos (add64 a p) +ℤ pos 0 ≡ pos 0 +ℤ pos (w + a) +ℤ pos (p - w)
  set_step = grind int_laws

  clear_step : pos (add64 a p) +ℤ pos 0 ≡ as_i64 c +ℤ pos (w + a) +ℤ (pos (p - w) -ℤ pos c)
  clear_step = rw i64_pos (grind int_laws)

  restore_step :
      pos (add64 a w) +ℤ pos (p - w) ≡ as_i64 (add64 0 (sub64 p w)) +ℤ pos (w + a) +ℤ pos 0
  restore_step =
      let e : as_i64 (add64 0 (sub64 p w)) ≡ pos (p - w) = ground arith in rw e (grind int_laws)

  unclear_step :
      pos (add64 a w) +ℤ (pos (p - w) -ℤ pos c)
      ≡ as_i64 (add64 (sub64 0 c) 0) +ℤ pos (w + a) +ℤ pos (p - w)
  unclear_step =
      let e : as_i64 (add64 (sub64 0 c) 0) ≡ pos 0 -ℤ pos c = i64_sub 0 c (omega arith) c_small in
      rw e (grind int_laws)

  unclear_restore_step :
      pos (add64 a w) +ℤ (pos (p - w) -ℤ pos c)
      ≡ as_i64 (add64 (sub64 0 c) (sub64 p w)) +ℤ pos (w + a) +ℤ pos 0
  unclear_restore_step =
      let e : as_i64 (add64 (sub64 0 c) (sub64 p w)) ≡ pos (p - w) -ℤ pos c =
        let near : sub64 p w ≡ p - w = omega arith in
        rw near (i64_sub (p - w) c (omega arith) c_small) in
      rw e (grind int_laws)

  reclear_step :
      pos (add64 a w) +ℤ pos (p - w) ≡ as_i64 (add64 c 0) +ℤ pos (w + a) +ℤ (pos (p - w) -ℤ pos c)
  reclear_step = let e : as_i64 (add64 c 0) ≡ pos c = ground arith in rw e (grind int_laws)

cold_gas_small :
    (s : GasSchedule) (is_cold : Bool) → IsSmall s → cold_gas s is_cold < 4611686018427387904
cold_gas_small s true small = omega arith
cold_gas_small s false small = omega arith

module _ (s : GasSchedule) (small : IsSmall s) (original current new : ℕ) (is_cold : Bool) where
  abbrev Balances : Type 0
  Balances =
      pos (sstore_gas s original current new is_cold).0 +ℤ change_price s original current
      ≡ (sstore_gas s original current new is_cold).1
        +ℤ pos (s.sload_warm + cold_gas s is_cold)
        +ℤ change_price s original new

  same_balances : current ≡ new → Balances
  unfolding sstore_gas sstore_word
  same_balances h =
      let few = cold_gas_small s is_cold small in
      rw (h, ==-refl new)
        (same_step (cold_gas s is_cold) s.sload_warm s.sstore_set s.sstore_clear_refund few
          (omega arith) (omega arith) (omega arith) (change_price s original new))

  clean_balances : original ≡ current → current ≢ new → Balances
  unfolding sstore_gas sstore_word
  clean_balances h h' =
      let few = cold_gas_small s is_cold small in
      ground (
        arith,
        set_step (cold_gas s is_cold) s.sload_warm s.sstore_set s.sstore_clear_refund few
            (omega arith) (omega arith) (omega arith),
        set_step (cold_gas s is_cold) s.sload_warm s.sstore_reset s.sstore_clear_refund few
            (omega arith) (omega arith) (omega arith),
        clear_step (cold_gas s is_cold) s.sload_warm s.sstore_reset s.sstore_clear_refund few
            (omega arith) (omega arith) (omega arith),
      )

  dirty_balances : current ≢ new → original ≢ current → Balances
  unfolding sstore_gas sstore_word
  dirty_balances h h' =
      let few = cold_gas_small s is_cold small in
      ground (
        arith,
        same_step (cold_gas s is_cold) s.sload_warm s.sstore_set s.sstore_clear_refund few
            (omega arith) (omega arith) (omega arith) (pos 0),
        same_step (cold_gas s is_cold) s.sload_warm s.sstore_set s.sstore_clear_refund few
            (omega arith) (omega arith) (omega arith) (pos (s.sstore_set - s.sload_warm)),
        same_step (cold_gas s is_cold) s.sload_warm s.sstore_set s.sstore_clear_refund few
            (omega arith) (omega arith) (omega arith) (pos (s.sstore_reset - s.sload_warm)),
        restore_step (cold_gas s is_cold) s.sload_warm s.sstore_set s.sstore_clear_refund few
            (omega arith) (omega arith) (omega arith),
        restore_step (cold_gas s is_cold) s.sload_warm s.sstore_reset s.sstore_clear_refund few
            (omega arith) (omega arith) (omega arith),
        unclear_step (cold_gas s is_cold) s.sload_warm s.sstore_reset s.sstore_clear_refund few
            (omega arith) (omega arith) (omega arith),
        unclear_restore_step (cold_gas s is_cold) s.sload_warm s.sstore_reset s.sstore_clear_refund
            few (omega arith) (omega arith) (omega arith),
        reclear_step (cold_gas s is_cold) s.sload_warm s.sstore_reset s.sstore_clear_refund few
            (omega arith) (omega arith) (omega arith),
      )

step_balances :
    (s : GasSchedule) (small : IsSmall s) (original current new : ℕ) (is_cold : Bool)
    → Balances s small original current new is_cold
step_balances s small original current new is_cold = ground (
  arith,
  same_balances s small original current new is_cold,
  clean_balances s small original current new is_cold,
  dirty_balances s small original current new is_cold,
)

balances_chain :
    (g h k l : ℕ) (r q u v w : ℤ)
    → pos g +ℤ u ≡ r +ℤ pos k +ℤ v
    → pos h +ℤ v ≡ q +ℤ pos l +ℤ w
    → pos (g + h) +ℤ u ≡ (r +ℤ q) +ℤ pos (k + l) +ℤ w
balances_chain g h k l r q u v w first rest = grind int_laws

abbrev pub RunBalances : GasSchedule → ℕ → ℕ → List (ℕ × Bool) → Type 0
RunBalances s original current writes =
    pos (sstore_run s original current writes).0 +ℤ change_price s original current
    ≡ (sstore_run s original current writes).1
      +ℤ pos (access_gas s writes)
      +ℤ change_price s original (final_value current writes)

-- The writes to one slot in a transaction, from any value that it has by then: the gas less the
-- refunds is a warm read for each write, the surcharges of the cold ones, and the price of the last
-- value less that of the first one, whatever was written between. The costs of the schedule are below
-- 2^62, and a warm read is no dearer than a change.
pub sstore_run_lem :
    (s : GasSchedule)
    → IsSmall s
    → (original current : ℕ) (writes : List (ℕ × Bool)) → RunBalances s original current writes
unfolding sstore_run
sstore_run_lem s small original current [] = grind int_laws
sstore_run_lem s small original current ((new, is_cold) ∷ writes) =
    let first = sstore_gas s original current new is_cold in
    let rest = sstore_run s original new writes in
    balances_chain first.0 rest.0 (s.sload_warm + cold_gas s is_cold) (access_gas s writes) first.1
      rest.1 (change_price s original current) (change_price s original new)
      (change_price s original (final_value new writes))
      (step_balances s small original current new is_cold)
      (sstore_run_lem s small original new writes)
