-- ===== src/Evm/State/Undo.antt =====
-- The loop of `revert_checkpoint` of state.rs, and the writes that it undoes.
use nexus_chain.Base.{
  ℕ, ◌≤◌, ◌≡◌, refl, ◌∙◌, true, List, [], ◌∷◌, arith, ltb, Bool-cases, ==-refl, inl, inr, length,
}
use nexus_chain.Evm.State.{
  StateDb, Account, get_account, set_account, get_balance, set_balance, get_storage, set_storage,
}
use nexus_chain.Evm.State.Journal.{
  JournalEntry, balance_changed, storage_changed, revert_entry, revert_to,
}
use nexus_chain.Evm.State.Views.{
  SameView, revert_entry-SameView, get_account-set_account, get_storage-set_account,
  get_storage-set_storage, get_account-set_storage,
}

pub revert_balance :
    (s : StateDb) (b v : ℕ)
    → SameView (revert_entry (set_balance s b v) (balance_changed b (get_balance s b))) s
unfolding revert_entry set_balance get_balance
revert_balance s b v =
    let x : Account = record (get_account s b) { balance = v } in
    let written = set_account s b x in
    let y : Account = record (get_account written b) { balance = (get_account s b).balance } in
    let back : y ≡ get_account s b = rw (get_account-set_account s b b x, ==-refl b) refl in
    record {
      same_account = λ a.
          ground
            (arith, get_account-set_account written a b y, get_account-set_account s a b x, back);
      same_storage =
          λ a k. get_storage-set_account written a b k y ∙ get_storage-set_account s a b k x;
    }

pub revert_storage :
    (s : StateDb) (b k v : ℕ)
    → SameView (revert_entry (set_storage s b k v) (storage_changed b k (get_storage s b k))) s
unfolding revert_entry
revert_storage s b k v =
    let written = set_storage s b k v in
    let was = get_storage s b k in
    record {
      same_account =
          λ a. get_account-set_storage written a b k was ∙ get_account-set_storage s a b k v;
      same_storage = λ a j.
          ground (
            arith,
            get_storage-set_storage written a b j k was,
            get_storage-set_storage s a b j k v,
          );
    }

-- The reverting loop shows the same in states that show the same, and leaves the same journal.
pub revert_to-SameView :
    (n : ℕ) (s t : StateDb) (journal : List JournalEntry)
    → SameView s t
    → SameView (revert_to n s journal).0 (revert_to n t journal).0
      × ((revert_to n s journal).1 ≡ (revert_to n t journal).1)
unfolding revert_to
revert_to-SameView n s t [] h = (h, refl)
revert_to-SameView n s t (e ∷ journal) h = elim (Bool-cases (ltb n (length (e ∷ journal)))) [
  | inl more ↦ rw more (
      revert_to-SameView n (revert_entry s e) (revert_entry t e) journal
        (revert_entry-SameView s t e h))
  | inr done ↦ rw done (h, refl)
]

-- Reverting to `m` and then to `n` below it is reverting to `n`.
pub revert_to-revert_to :
    (n m : ℕ) (s : StateDb) (journal : List JournalEntry)
    → n ≤ m
    → revert_to n (revert_to m s journal).0 (revert_to m s journal).1 ≡ revert_to n s journal
unfolding revert_to
revert_to-revert_to n m s [] h = refl
revert_to-revert_to n m s (e ∷ journal) h = elim (Bool-cases (ltb m (length (e ∷ journal)))) [
  | inl more ↦
      let deep : ltb n (length (e ∷ journal)) ≡ true = ground arith in
      rw (more, deep) (revert_to-revert_to n m (revert_entry s e) journal h)
  | inr done ↦ rw done refl
]

pub le-length-revert_to :
    (n m : ℕ) (s : StateDb) (journal : List JournalEntry)
    → n ≤ m
    → n ≤ length journal
    → n ≤ length (revert_to m s journal).1
unfolding revert_to
le-length-revert_to n m s [] h g = g
le-length-revert_to n m s (e ∷ journal) h g = elim (Bool-cases (ltb m (length (e ∷ journal)))) [
  | inl more ↦ rw more (le-length-revert_to n m (revert_entry s e) journal h (ground arith))
  | inr done ↦ rw done g
]

pub revert_to_top :
    (s : StateDb) (journal : List JournalEntry)
    → revert_to (length journal) s journal ≡ (s, journal)
unfolding revert_to
revert_to_top s [] = refl
revert_to_top s (e ∷ journal) = ground arith
