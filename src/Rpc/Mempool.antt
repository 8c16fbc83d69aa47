-- ===== src/Rpc/Mempool.antt =====
-- `Mempool` of crates/nexus-rpc/src/mempool.rs. The queue is a list from its front. Each
-- operation is one step: its two locks are left out, and with them that `add` takes that of the
-- table first and `drain_batch` that of the queue first.
pub mod Invariant
mod Tests
use nexus_chain.Base.{
  ℕ, Bool, true, false, List, [], ◌∷◌, ◌++◌, map, Option, if◌then◌else◌, leb, length, take, drop,
  min, filter_map,
}
use nexus_chain.Base.Map.{Map, lookup, insert, remove, contains_key}
use nexus_chain.Primitives.Merkle.{Hash}
use nexus_chain.Primitives.Signature.{Secp}
use nexus_chain.Primitives.Transaction.{Transaction, hash}

pub record Mempool : Type 0 where
  pub pending : List Transaction
  pub by_hash : Map Transaction
  pub max_size : ℕ

abbrev pub new_mempool : ℕ → Mempool
new_mempool max_size = record { pending = []; by_hash = []; max_size = max_size }

abbrev pub get_by_hashes : Mempool → List Hash → List Transaction
get_by_hashes p hashes = filter_map (λ h. lookup h p.by_hash) hashes

module _ (c : Secp) where
  unfoldable pub add : Mempool → Transaction → Bool × Mempool
  add p tx =
      if contains_key (hash c tx) p.by_hash
      then (false, p)
      else if leb p.max_size (length p.pending)
      then (false, p)
      else (
        true,
        record p { by_hash = insert (hash c tx) tx p.by_hash; pending = p.pending ++ (tx ∷ []) },
      )

  abbrev pub remove_all : List Transaction → Map Transaction → Map Transaction
  remove_all [] m = m
  remove_all (tx ∷ txs) m = remove_all txs (remove (hash c tx) m)

  unfoldable pub drain_batch : Mempool → ℕ → List Transaction × Mempool
  drain_batch p limit =
      let count = min (length p.pending) limit in
      let batch = take count p.pending in
      (batch, record p { pending = drop count p.pending; by_hash = remove_all batch p.by_hash })
