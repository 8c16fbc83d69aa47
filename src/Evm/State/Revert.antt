-- ===== src/Evm/State/Revert.antt =====
-- What `revert_checkpoint` of state.rs restores.
use nexus_chain.Base.{
  ℕ, ◌≤◌, ◌<◌, ◌≡◌, refl, ◌∙◌, true, List, [], ◌∷◌, arith, ltb, Bool-cases, Option-cases, inl, inr,
  length, get_elem?, All, lt→ltb,
}
use nexus_chain.Evm.State.{StateDb, get_balance, set_balance, get_storage, set_storage}
use nexus_chain.Evm.State.Journal.{
  JournalEntry, JournaledState, balance_changed, storage_changed, revert_entry, revert_to,
  checkpoint, commit_checkpoint, revert_checkpoint, journal_balance, journal_storage, JournalCall,
  set_balance_call, set_storage_call, checkpoint_call, commit_call, revert_call, journal_step,
  journal_run,
}
use nexus_chain.Evm.State.Checkpoints.{
  Extends, Extends-elem, Extends-take, Extends-append, Extends-own,
}
use nexus_chain.Evm.State.Views.{SameView, SameView-refl, SameView-trans}
use nexus_chain.Evm.State.Undo.{
  revert_balance, revert_storage, revert_to-SameView, revert_to-revert_to, le-length-revert_to,
  revert_to_top,
}

-- In `now`, undoing down to where `start` was gives `start` back, and the checkpoints are those of
-- `start`, one at its journal, and later ones.
record Undoes (start now : JournaledState) : Type 0 where
  shows : SameView (revert_to (length start.journal) now.state now.journal).0 start.state
  journal_back : (revert_to (length start.journal) now.state now.journal).1 ≡ start.journal
  longer : length start.journal ≤ length now.journal
  extends : Extends start.checkpoints (length start.journal) now.checkpoints

-- A new entry keeps it, where undoing the entry shows what the state was.
Undoes-push :
    (start now : JournaledState) (s : StateDb) (e : JournalEntry)
    → Undoes start now
    → SameView (revert_entry s e) now.state
    → Undoes start (record now { journal = e ∷ now.journal; state = s })
unfolding revert_to
Undoes-push start now s e h back =
    let n = length start.journal in
    let deep : ltb n (length (e ∷ now.journal)) ≡ true =
      lt→ltb n (length (e ∷ now.journal)) (omega (arith, h.longer)) in
    let (same, kept) = revert_to-SameView n (revert_entry s e) now.state now.journal back in
    record {
      shows = rw deep (
          SameView-trans (revert_to n (revert_entry s e) now.journal).0
            (revert_to n now.state now.journal).0 start.state same h.shows);
      journal_back = rw deep (kept ∙ h.journal_back);
      longer = omega (arith, h.longer);
      extends = h.extends;
    }

-- A call that does not name a checkpoint of `start` or the one after them.
abbrev pub IsInner : ℕ → JournalCall → Type 0
IsInner k (commit_call id) = k < id
IsInner k (revert_call id) = k < id
IsInner k _ = Unit

Undoes-revert :
    (start now : JournaledState) (id : ℕ)
    → Undoes start now
    → length start.checkpoints < id
    → Undoes start (revert_checkpoint now id)
unfolding revert_checkpoint
Undoes-revert start now id h inner = elim (Option-cases (get_elem? now.checkpoints id)) [
  | inl absent ↦ rw (absent, revert_checkpoint) h
  | inr (m, found) ↦
      let n = length start.journal in
      let low = Extends-elem n m id start.checkpoints now.checkpoints h.extends inner found in
      let twice = revert_to-revert_to n m now.state now.journal low in
      rw (found, revert_checkpoint)
        (record {
          shows = rw twice h.shows;
          journal_back = rw twice h.journal_back;
          longer = le-length-revert_to n m now.state now.journal low h.longer;
          extends = Extends-take n id start.checkpoints now.checkpoints h.extends inner;
        })
]

Undoes-step :
    (start now : JournaledState) (c : JournalCall)
    → Undoes start now
    → IsInner (length start.checkpoints) c
    → Undoes start (journal_step now c)
unfolding journal_step journal_balance journal_storage checkpoint commit_checkpoint
Undoes-step start now (set_balance_call b v) h inner =
    Undoes-push start now (set_balance now.state b v) (balance_changed b (get_balance now.state b))
      h (revert_balance now.state b v)
Undoes-step start now (set_storage_call b k v) h inner =
    Undoes-push start now (set_storage now.state b k v)
      (storage_changed b k (get_storage now.state b k)) h (revert_storage now.state b k v)
Undoes-step start now checkpoint_call h inner = record {
  shows = h.shows;
  journal_back = h.journal_back;
  longer = h.longer;
  extends =
      Extends-append (length start.journal) (length now.journal) start.checkpoints now.checkpoints
        h.extends h.longer;
}
Undoes-step start now (commit_call id) h inner =
    elim (Bool-cases (ltb id (length now.checkpoints))) [
      | inl inside ↦ rw inside (record {
        shows = h.shows;
        journal_back = h.journal_back;
        longer = h.longer;
        extends =
            Extends-take (length start.journal) id start.checkpoints now.checkpoints h.extends
              inner;
      })
      | inr outside ↦ rw outside h
    ]
Undoes-step start now (revert_call id) h inner = Undoes-revert start now id h inner

Undoes-run :
    (start now : JournaledState) (cs : List JournalCall)
    → Undoes start now
    → All (IsInner (length start.checkpoints)) cs
    → Undoes start (journal_run now cs)
unfolding journal_run
Undoes-run start now [] h inner = h
Undoes-run start now (c ∷ cs) h inner =
    Undoes-run start (journal_step now c) cs (Undoes-step start now c h inner.0) inner.1

Undoes-checkpoint : (start : JournaledState) → Undoes start (checkpoint start).1
unfolding checkpoint
Undoes-checkpoint start =
    let top = revert_to_top start.state start.journal in
    record {
      shows = rw top (SameView-refl start.state);
      journal_back = rw top refl;
      longer = omega arith;
      extends = ([], refl, tt);
    }

-- Whatever balances and slots are written after a checkpoint, and whatever inner checkpoints are
-- made, committed and reverted: reverting the checkpoint shows the accounts and slots that it saw,
-- and restores the journal and the checkpoints themselves.
pub revert_checkpoint_lem :
    (start : JournaledState) (cs : List JournalCall)
    → All (IsInner (checkpoint start).0) cs
    → let reverted = revert_checkpoint (journal_run (checkpoint start).1 cs) (checkpoint start).0 in
      SameView reverted.state start.state
      × (reverted.journal ≡ start.journal)
      × (reverted.checkpoints ≡ start.checkpoints)
unfolding revert_checkpoint checkpoint
revert_checkpoint_lem start cs inner =
    let now = journal_run (checkpoint start).1 cs in
    let h = Undoes-run start (checkpoint start).1 cs (Undoes-checkpoint start) inner in
    let (found, below) =
      Extends-own (length start.journal) start.checkpoints now.checkpoints h.extends in
    rw (found, revert_checkpoint) (h.shows, h.journal_back, below)
