-- ===== src/Evm/State/Journal.antt =====
-- `JournaledState` of state.rs: the writes of a transaction with what undoes them. The journal is
-- kept with its newest entry first, so that `push` and `pop` work at its head.
use nexus_chain.Base.{
  ℕ, List, [], ◌∷◌, ◌++◌, none, some, if◌then◌else◌, ltb, length, take, get_elem?,
}
use nexus_chain.Evm.State.{
  StateDb, Account, get_account, set_account, get_balance, set_balance, get_storage, set_storage,
  delete_account,
}

pub data JournalEntry : Type 0 where
  account_created : ℕ → JournalEntry
  account_destroyed : ℕ → Account → JournalEntry
  balance_changed : ℕ → ℕ → JournalEntry
  nonce_changed : ℕ → ℕ → JournalEntry
  code_set : ℕ → ℕ → JournalEntry
  storage_changed : ℕ → ℕ → ℕ → JournalEntry

pub record JournaledState : Type 0 where
  pub state : StateDb
  pub journal : List JournalEntry
  pub checkpoints : List ℕ

abbrev pub journaled : StateDb → JournaledState
journaled state = record { state = state; journal = []; checkpoints = [] }

unfoldable pub checkpoint : JournaledState → ℕ × JournaledState
checkpoint j =
    (length j.checkpoints, record j { checkpoints = j.checkpoints ++ (length j.journal ∷ []) })

unfoldable pub commit_checkpoint : JournaledState → ℕ → JournaledState
commit_checkpoint j id =
    if ltb id (length j.checkpoints) then record j { checkpoints = take id j.checkpoints } else j

unfoldable pub revert_entry : StateDb → JournalEntry → StateDb
revert_entry s (account_created address) = delete_account s address
revert_entry s (account_destroyed address account) = set_account s address account
revert_entry s (balance_changed address prev_balance) = set_balance s address prev_balance
revert_entry s (nonce_changed address prev_nonce) =
    set_account s address (record (get_account s address) { nonce = prev_nonce })
revert_entry s (code_set address prev_code_hash) =
    set_account s address (record (get_account s address) { code_hash = prev_code_hash })
revert_entry s (storage_changed address key prev_value) = set_storage s address key prev_value

-- The loop of `revert_checkpoint`: entries are undone while there are more than `journal_len`.
unfoldable pub revert_to : ℕ → StateDb → List JournalEntry → StateDb × List JournalEntry
revert_to journal_len s [] = (s, [])
revert_to journal_len s (e ∷ journal) =
    let rest = revert_to journal_len (revert_entry s e) journal in
    if ltb journal_len (length (e ∷ journal)) then rest else (s, e ∷ journal)

unfoldable pub revert_checkpoint : JournaledState → ℕ → JournaledState
revert_checkpoint j id = elim (get_elem? j.checkpoints id) [
  | none ↦ j
  | some journal_len ↦
      let (state, journal) = revert_to journal_len j.state j.journal in
      record { state = state; journal = journal; checkpoints = take id j.checkpoints }
]

unfoldable pub journal_balance : JournaledState → ℕ → ℕ → JournaledState
journal_balance j address balance = record j {
  journal = balance_changed address (get_balance j.state address) ∷ j.journal;
  state = set_balance j.state address balance;
}

unfoldable pub journal_storage : JournaledState → ℕ → ℕ → ℕ → JournaledState
journal_storage j address key value = record j {
  journal = storage_changed address key (get_storage j.state address key) ∷ j.journal;
  state = set_storage j.state address key value;
}

pub data JournalCall : Type 0 where
  set_balance_call : ℕ → ℕ → JournalCall
  set_storage_call : ℕ → ℕ → ℕ → JournalCall
  checkpoint_call : JournalCall
  commit_call : ℕ → JournalCall
  revert_call : ℕ → JournalCall

unfoldable pub journal_step : JournaledState → JournalCall → JournaledState
journal_step j (set_balance_call address balance) = journal_balance j address balance
journal_step j (set_storage_call address key value) = journal_storage j address key value
journal_step j checkpoint_call = (checkpoint j).1
journal_step j (commit_call id) = commit_checkpoint j id
journal_step j (revert_call id) = revert_checkpoint j id

unfoldable pub journal_run : JournaledState → List JournalCall → JournaledState
journal_run j [] = j
journal_run j (c ∷ cs) = journal_run (journal_step j c) cs
