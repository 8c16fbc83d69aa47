-- ===== src/Evm/State/Tests.antt =====
-- A small state of state.rs, moves of balance on it, and a reverted checkpoint.
use nexus_chain.Base.{
  ℕ, ◌+◌, ◌≤◌, ◌<◌, ◌≡◌, ◌≢◌, refl, List, [], ◌∷◌, arith, ok, err, u256_mod, true,
}
use nexus_chain.Evm.State.{
  StateDb, Account, empty_account, empty_db, balance_overflow, insufficient_balance, get_account,
  get_balance, account_exists, snapshot, rollback, set_account, set_balance, increment_nonce,
}
use nexus_chain.Evm.State.Balances.{move_balance, move_balance_lem, rollback_lem}
use nexus_chain.Evm.State.Views.{SameView}
use nexus_chain.Evm.State.Journal.{
  JournaledState, journaled, checkpoint, revert_checkpoint, JournalCall, set_balance_call,
  set_storage_call, checkpoint_call, commit_call, revert_call, journal_run, journal_balance,
  revert_to, revert_entry,
}
use nexus_chain.Evm.State.Revert.{revert_checkpoint_lem}

abbrev rich : Account
rich = record empty_account { balance = 100; nonce = 4 }

abbrev ledger : StateDb
ledger = record empty_db {
  accounts = (1, rich) ∷ (2, empty_account) ∷ [];
  storage = (1, (8, 80) ∷ []) ∷ [];
}

move_balance_lem_example :
    (100 < 30 → move_balance ledger 1 2 30 ≡ err (insufficient_balance 30 100))
    × (30 ≤ 100 → u256_mod ≤ 30 → move_balance ledger 1 2 30 ≡ err balance_overflow)
    × (30 ≤ 100
        → 30 < u256_mod
        → (t : StateDb) × (move_balance ledger 1 2 30 ≡ ok t)
          × (get_balance t 1 + 30 ≡ 100)
          × (get_balance t 2 ≡ 30)
          × ((a : ℕ) → a ≢ 1 → a ≢ 2 → get_balance t a ≡ get_balance ledger a))
unfolding get_balance get_account
move_balance_lem_example = move_balance_lem ledger 1 2 30 (omega arith)

rollback_lem_example : SameView (rollback (increment_nonce ledger 2) (snapshot ledger)) ledger
rollback_lem_example = rollback_lem ledger (increment_nonce ledger 2) (refl, (refl, tt)) (refl, tt)

abbrev started : JournaledState
started = journaled ledger

abbrev calls : List JournalCall
calls =
    set_balance_call 3 7
    ∷ checkpoint_call
    ∷ set_storage_call 1 8 81
    ∷ revert_call 1
    ∷ set_storage_call 2 9 1
    ∷ checkpoint_call
    ∷ commit_call 1
    ∷ []

revert_checkpoint_lem_example :
    let reverted = revert_checkpoint (journal_run (checkpoint started).1 calls) 0 in
    SameView reverted.state ledger × (reverted.journal ≡ []) × (reverted.checkpoints ≡ [])
unfolding checkpoint
revert_checkpoint_lem_example =
    revert_checkpoint_lem started calls
      (tt, (tt, (tt, (omega arith, (tt, (tt, (omega arith, tt)))))))

-- Reverting leaves an entry for an account that did not exist.
leftover :
    account_exists (revert_checkpoint (journal_balance (checkpoint started).1 3 7) 0).state 3 ≡ true
unfolding checkpoint revert_checkpoint journal_balance revert_to revert_entry set_balance
    set_account get_balance get_account
leftover = refl
