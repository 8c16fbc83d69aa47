-- ===== src/Evm/State/Views.antt =====
-- What a caller sees of a `StateDb` of state.rs: the accounts and the slots, absent ones as empty and
-- zero, and how the operations and the undoing of a journal entry act on them.
use nexus_chain.Base.{
  ℕ, ◌≡◌, refl, sym, ◌∙◌, ap, ◌&&◌, arith, if◌then◌else◌, ◌==◌, Bool-cases, inl, inr,
}
use nexus_chain.Base.Map.{lookup, insert, lookup-insert, lookup-remove_self, lookup-remove_ne}
use nexus_chain.Evm.State.{
  StateDb, Account, empty_account, or_nil, get_account, set_account, set_balance, get_storage,
  set_storage, delete_account,
}
use nexus_chain.Evm.State.Journal.{
  JournalEntry, account_created, account_destroyed, balance_changed, nonce_changed, code_set,
  storage_changed, revert_entry,
}

pub record SameView (s t : StateDb) : Type 0 where
  pub same_account : (a : ℕ) → get_account s a ≡ get_account t a
  pub same_storage : (a k : ℕ) → get_storage s a k ≡ get_storage t a k

pub SameView-refl : (s : StateDb) → SameView s s
SameView-refl s = record { same_account = λ a. refl; same_storage = λ a k. refl }

pub SameView-trans : (s t u : StateDb) → SameView s t → SameView t u → SameView s u
SameView-trans s t u p q = record {
  same_account = λ a. p.same_account a ∙ q.same_account a;
  same_storage = λ a k. p.same_storage a k ∙ q.same_storage a k;
}

pub get_account-set_account :
    (s : StateDb) (a b : ℕ) (x : Account)
    → get_account (set_account s b x) a ≡ (if a == b then x else get_account s a)
unfolding get_account set_account
get_account-set_account s a b x = elim (Bool-cases (a == b)) [
  | inl same ↦ rw (lookup-insert a b x s.accounts, same) refl
  | inr other ↦ rw (lookup-insert a b x s.accounts, other) refl
]

pub get_storage-set_account :
    (s : StateDb) (a b k : ℕ) (x : Account)
    → get_storage (set_account s b x) a k ≡ get_storage s a k
unfolding get_storage set_account
get_storage-set_account s a b k x = refl

pub get_storage-set_storage :
    (s : StateDb) (a b k l v : ℕ)
    → get_storage (set_storage s b l v) a k ≡ (if a == b && k == l then v else get_storage s a k)
unfolding get_storage set_storage
get_storage-set_storage s a b k l v =
    let slots = or_nil (lookup b s.storage) in
    ground (arith, lookup-insert a b (insert l v slots) s.storage, lookup-insert k l v slots)

pub get_account-set_storage :
    (s : StateDb) (a b l v : ℕ) → get_account (set_storage s b l v) a ≡ get_account s a
unfolding get_account set_storage
get_account-set_storage s a b l v = refl

pub get_account-delete_account :
    (s : StateDb) (a b : ℕ)
    → get_account (delete_account s b) a ≡ (if a == b then empty_account else get_account s a)
unfolding get_account delete_account
get_account-delete_account s a b =
    ground (arith, lookup-remove_self b s.accounts, lookup-remove_ne a b s.accounts)

pub get_storage-delete_account :
    (s : StateDb) (a b k : ℕ)
    → get_storage (delete_account s b) a k ≡ (if a == b then 0 else get_storage s a k)
unfolding get_storage delete_account
get_storage-delete_account s a b k =
    ground (arith, lookup-remove_self b s.storage, lookup-remove_ne a b s.storage)

pub set_account-SameView :
    (s t : StateDb) (b : ℕ) (x y : Account)
    → SameView s t
    → x ≡ y
    → SameView (set_account s b x) (set_account t b y)
set_account-SameView s t b x y h e = record {
  same_account = λ a.
      ground
        (arith, get_account-set_account s a b x, get_account-set_account t a b y, h.same_account a);
  same_storage = λ a k.
      get_storage-set_account s a b k x
      ∙ h.same_storage a k
      ∙ sym (get_storage-set_account t a b k y);
}

abbrev with_balance : ℕ → Account → Account
with_balance v x = record x { balance = v }

abbrev with_nonce : ℕ → Account → Account
with_nonce n x = record x { nonce = n }

abbrev with_code_hash : ℕ → Account → Account
with_code_hash n x = record x { code_hash = n }

-- Undoing an entry shows the same in states that show the same.
pub revert_entry-SameView :
    (s t : StateDb) (e : JournalEntry)
    → SameView s t
    → SameView (revert_entry s e) (revert_entry t e)
unfolding revert_entry set_balance
revert_entry-SameView s t (account_created b) h = record {
  same_account = λ a.
      ground (
        arith,
        get_account-delete_account s a b,
        get_account-delete_account t a b,
        h.same_account a,
      );
  same_storage = λ a k. ground (
    arith,
    get_storage-delete_account s a b k,
    get_storage-delete_account t a b k,
    h.same_storage a k,
  );
}
revert_entry-SameView s t (account_destroyed b x) h = set_account-SameView s t b x x h refl
revert_entry-SameView s t (balance_changed b v) h =
    set_account-SameView s t b (with_balance v (get_account s b)) (with_balance v (get_account t b))
      h (ap (with_balance v) (h.same_account b))
revert_entry-SameView s t (nonce_changed b n) h =
    set_account-SameView s t b (with_nonce n (get_account s b)) (with_nonce n (get_account t b)) h
      (ap (with_nonce n) (h.same_account b))
revert_entry-SameView s t (code_set b n) h =
    set_account-SameView s t b (with_code_hash n (get_account s b))
      (with_code_hash n (get_account t b)) h (ap (with_code_hash n) (h.same_account b))
revert_entry-SameView s t (storage_changed b k v) h = record {
  same_account = λ a.
      get_account-set_storage s a b k v
      ∙ h.same_account a
      ∙ sym (get_account-set_storage t a b k v);
  same_storage = λ a j. ground (
    arith,
    get_storage-set_storage s a b j k v,
    get_storage-set_storage t a b j k v,
    h.same_storage a j,
  );
}
