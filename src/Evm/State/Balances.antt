-- ===== src/Evm/State/Balances.antt =====
-- Moves of balance in `StateDb` of state.rs, and its snapshots.
use nexus_chain.Base.{
  ℕ, ◌+◌, ◌-◌, ◌≤◌, ◌<◌, ◌≡◌, ◌≢◌, refl, none, some, [], ◌∷◌, arith, if◌then◌else◌, ◌==◌, Result,
  ok, err, ◌>>=◌, u256_mod,
}
use nexus_chain.Base.Map.{Map, lookup, insert, lookup-insert, Unique}
use nexus_chain.Evm.State.{
  StateDb, Account, EvmError, balance_overflow, insufficient_balance, get_account, get_balance,
  set_balance, add_balance, sub_balance, get_storage, snapshot, rollback, insert_all,
}
use nexus_chain.Evm.State.Views.{get_account-set_account, SameView}

pub get_balance-set_balance :
    (s : StateDb) (a b v : ℕ)
    → get_balance (set_balance s b v) a ≡ (if a == b then v else get_balance s a)
unfolding get_balance set_balance
get_balance-set_balance s a b v =
    let x : Account = record (get_account s b) { balance = v } in
    ground (arith, get_account-set_account s a b x)

module _ (s : StateDb) (a amount : ℕ) where
  sub_balance_ok :
      amount ≤ get_balance s a
      → sub_balance s a amount ≡ ok (set_balance s a (get_balance s a - amount))
  unfolding sub_balance get_balance
  sub_balance_ok h = ground arith

  sub_balance_err :
      get_balance s a < amount
      → sub_balance s a amount ≡ err (insufficient_balance amount (get_balance s a))
  unfolding sub_balance get_balance
  sub_balance_err h = ground arith

  add_balance_ok :
      get_balance s a + amount < u256_mod
      → add_balance s a amount ≡ ok (set_balance s a (get_balance s a + amount))
  unfolding add_balance get_balance
  add_balance_ok h = ground arith

  add_balance_err :
      u256_mod ≤ get_balance s a + amount → add_balance s a amount ≡ err balance_overflow
  unfolding add_balance get_balance
  add_balance_err h = ground arith

-- `sub_balance(from)?` and then `add_balance(to)?`, as a caller composes them. An error carries no
-- state: what the debit wrote before the overflow is dropped here.
abbrev pub move_balance : StateDb → ℕ → ℕ → ℕ → Result EvmError StateDb
move_balance s source target amount =
    sub_balance s source amount >>= λ t. add_balance t target amount

-- Moving an amount between two accounts: with too little on the one it is refused, and the error
-- tells the amount and the balance; where the other would pass 2^256 - 1 it is refused; and else it goes through, the
-- two balances have the same sum as before, and every other balance is what it was.
pub move_balance_lem :
    (s : StateDb) (source target amount : ℕ)
    → source ≢ target
    → (get_balance s source < amount
        → move_balance s source target amount
          ≡ err (insufficient_balance amount (get_balance s source)))
      × (amount ≤ get_balance s source
          → u256_mod ≤ get_balance s target + amount
          → move_balance s source target amount ≡ err balance_overflow)
      × (amount ≤ get_balance s source
          → get_balance s target + amount < u256_mod
          → (t : StateDb) × (move_balance s source target amount ≡ ok t)
            × (get_balance t source + amount ≡ get_balance s source)
            × (get_balance t target ≡ get_balance s target + amount)
            × ((a : ℕ) → a ≢ source → a ≢ target → get_balance t a ≡ get_balance s a))
move_balance_lem s source target amount apart =
    let taken = set_balance s source (get_balance s source - amount) in
    let given = set_balance taken target (get_balance s target + amount) in
    let same : get_balance taken target ≡ get_balance s target =
      ground (arith, get_balance-set_balance s target source (get_balance s source - amount)) in
    let after : (a : ℕ)
        → get_balance given a
          ≡ (if a == target then get_balance s target + amount else get_balance taken a) =
      λ a. get_balance-set_balance taken a target (get_balance s target + amount) in
    let before : (a : ℕ)
        → get_balance taken a
          ≡ (if a == source then get_balance s source - amount else get_balance s a) =
      λ a. get_balance-set_balance s a source (get_balance s source - amount) in
    (
      λ low. rw (sub_balance_err s source amount low) refl,
      λ enough over.
          rw (sub_balance_ok s source amount enough)
            (add_balance_err taken target amount (rw same over)),
      λ enough fits. (
        given,
        rw
            (
              sub_balance_ok s source amount enough,
              add_balance_ok taken target amount (rw same fits),
              same,
            )
            refl,
        ground (arith, after source, before source),
        ground (arith, after target),
        λ a other other'. ground (arith, after a, before a),
      ),
    )

lookup-insert_all :
    {V : Type 0} (k : ℕ) (es m : Map V)
    → Unique es
    → lookup k (insert_all es m) ≡ elim (lookup k es) [ none ↦ lookup k m | some v ↦ some v ]
lookup-insert_all k [] m u = refl
lookup-insert_all k (e ∷ es) m u =
    ground (arith, lookup-insert_all k es (insert e.0 e.1 m), lookup-insert k e.0 e.1 m, u)

lookup-rebuilt :
    {V : Type 0} (k : ℕ) (es : Map V) → Unique es → lookup k (insert_all es []) ≡ lookup k es
lookup-rebuilt k es u = ground (arith, lookup-insert_all k es [] u)

-- A snapshot of a state whose maps have no key twice: rolling any later state back to it shows every
-- account and every slot as it was.
pub rollback_lem :
    (s later : StateDb)
    → Unique s.accounts
    → Unique s.storage
    → SameView (rollback later (snapshot s)) s
unfolding rollback get_account get_storage
rollback_lem s later u v = record {
  same_account = λ a. rw (lookup-rebuilt a s.accounts u) refl;
  same_storage = λ a k. rw (lookup-rebuilt a s.storage v) refl;
}
