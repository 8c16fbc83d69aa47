-- ===== src/Evm/State.antt =====
-- `StateDb` of crates/nexus-evm/src/state.rs: accounts, code and storage. A `DashMap` is a map of
-- Base/Map.antt, a `Vec<u8>` a list of bytes, and a balance the number of its limbs. Keccak-256 is
-- the parameter `keccak`.
pub mod Journal
pub mod Views
pub mod Balances
pub mod Checkpoints
pub mod Undo
pub mod Revert
mod Tests
use nexus_chain.Base.{
  ℕ, ◌+◌, List, [], ◌∷◌, ◌++◌, Bool, true, false, ◌&&◌, Option, none, some, Result, ok, err,
  if◌then◌else◌, ◌==◌, ltb, add64, to_le_bytes, to_be_bytes, length,
}
use nexus_chain.Base.Map.{Map, lookup, insert, remove, contains_key}
use nexus_chain.Primitives.Number.{add256, sub256}

-- The errors that a balance meets, of `EvmError`.
pub data EvmError : Type 0 where
  balance_overflow : EvmError
  insufficient_balance : ℕ → ℕ → EvmError
  subtraction_overflow : EvmError

pub record Account : Type 0 where
  pub nonce : ℕ
  pub balance : ℕ
  pub code_hash : ℕ
  pub storage_root : ℕ

abbrev pub empty_account : Account
empty_account = record { nonce = 0; balance = 0; code_hash = 0; storage_root = 0 }

abbrev pub is_empty : Account → Bool
is_empty a = a.nonce == 0 && a.balance == 0 && a.code_hash == 0

pub record StateDb : Type 0 where
  pub accounts : Map Account
  pub code : Map (List ℕ)
  pub storage : Map (Map ℕ)
  pub state_root : ℕ
  pub dirty_accounts : Map (Unit {0})
  pub dirty_storage : Map (List ℕ)

abbrev pub empty_db : StateDb
empty_db = record {
  accounts = [];
  code = [];
  storage = [];
  state_root = 0;
  dirty_accounts = [];
  dirty_storage = [];
}

abbrev pub or_empty : Option Account → Account
or_empty none = empty_account
or_empty (some a) = a

abbrev pub or_zero : Option ℕ → ℕ
or_zero none = 0
or_zero (some n) = n

abbrev pub or_nil {ℓ} : {A : Type ℓ} → Option (List A) → List A
or_nil none = []
or_nil (some xs) = xs

unfoldable pub get_account : StateDb → ℕ → Account
get_account s address = or_empty (lookup address s.accounts)

unfoldable pub set_account : StateDb → ℕ → Account → StateDb
set_account s address account = record s {
  accounts = insert address account s.accounts;
  dirty_accounts = insert address tt s.dirty_accounts;
}

unfoldable pub get_balance : StateDb → ℕ → ℕ
get_balance s address = (get_account s address).balance

unfoldable pub set_balance : StateDb → ℕ → ℕ → StateDb
set_balance s address balance =
    set_account s address (record (get_account s address) { balance = balance })

unfoldable pub add_balance : StateDb → ℕ → ℕ → Result EvmError StateDb
add_balance s address amount = elim (add256 (get_account s address).balance amount) [
  | none ↦ err balance_overflow
  | some new_balance ↦ ok (set_balance s address new_balance)
]

-- The `-` of the source cannot panic after its guard; its failure is `subtraction_overflow`.
unfoldable pub sub_balance : StateDb → ℕ → ℕ → Result EvmError StateDb
sub_balance s address amount =
    let account = get_account s address in
    if ltb account.balance amount
    then err (insufficient_balance amount account.balance)
    else elim (sub256 account.balance amount) [
      | none ↦ err subtraction_overflow
      | some new_balance ↦ ok (set_balance s address new_balance)
    ]

abbrev pub get_nonce : StateDb → ℕ → ℕ
get_nonce s address = (get_account s address).nonce

unfoldable pub increment_nonce : StateDb → ℕ → StateDb
increment_nonce s address =
    let account = get_account s address in
    set_account s address (record account { nonce = add64 account.nonce 1 })

unfoldable pub get_code : StateDb → ℕ → List ℕ
get_code s address =
    let account = get_account s address in
    if account.code_hash == 0 then [] else or_nil (lookup account.code_hash s.code)

unfoldable pub set_code : (List ℕ → ℕ) → StateDb → ℕ → List ℕ → StateDb
set_code keccak s address code =
    let code_hash = keccak code in
    let stored = record s { code = insert code_hash code s.code } in
    set_account stored address (record (get_account stored address) { code_hash = code_hash })

abbrev pub get_code_size : StateDb → ℕ → ℕ
get_code_size s address = length (get_code s address)

unfoldable pub get_storage : StateDb → ℕ → ℕ → ℕ
get_storage s address key = or_zero (lookup key (or_nil (lookup address s.storage)))

unfoldable pub set_storage : StateDb → ℕ → ℕ → ℕ → StateDb
set_storage s address key value = record s {
  storage = insert address (insert key value (or_nil (lookup address s.storage))) s.storage;
  dirty_storage =
      insert address (or_nil (lookup address s.dirty_storage) ++ (key ∷ [])) s.dirty_storage;
}

abbrev pub account_exists : StateDb → ℕ → Bool
account_exists s address = contains_key address s.accounts

unfoldable pub delete_account : StateDb → ℕ → StateDb
delete_account s address = record s {
  accounts = remove address s.accounts;
  storage = remove address s.storage;
  dirty_accounts = insert address tt s.dirty_accounts;
}

-- The bytes that `commit` hashes, account by account.
abbrev pub account_bytes : Map Account → List ℕ
account_bytes [] = []
account_bytes ((address, a) ∷ rest) =
    to_be_bytes 20 address
    ++ to_le_bytes 8 a.nonce
    ++ to_be_bytes 32 a.balance
    ++ to_be_bytes 32 a.code_hash
    ++ account_bytes rest

unfoldable pub commit : (List ℕ → ℕ) → StateDb → ℕ × StateDb
commit keccak s =
    let root = keccak (account_bytes s.accounts) in
    (root, record s { state_root = root; dirty_accounts = []; dirty_storage = [] })

pub record StateSnapshot : Type 0 where
  pub accounts : Map Account
  pub storage : Map (Map ℕ)

abbrev pub snapshot : StateDb → StateSnapshot
snapshot s = record { accounts = s.accounts; storage = s.storage }

-- The inserts of `rollback`, in the order of the snapshot.
abbrev pub insert_all {ℓ} : {V : Type ℓ} → Map V → Map V → Map V
insert_all [] m = m
insert_all (e ∷ es) m = insert_all es (insert e.0 e.1 m)

unfoldable pub rollback : StateDb → StateSnapshot → StateDb
rollback s taken = record s {
  accounts = insert_all taken.accounts [];
  storage = insert_all taken.storage [];
}
