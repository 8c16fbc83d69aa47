-- ===== src/Rpc/Mempool/Tests.antt =====
-- A pool of mempool.rs with room for two transactions.
use nexus_chain.Base.{ℕ, ◌≡◌, ◌≢◌, true, false, some, refl, [], ◌∷◌, ◌++◌, none, length, min, arith}
use nexus_chain.Base.Map.{lookup}
use nexus_chain.Primitives.Merkle.{Hash}
use nexus_chain.Primitives.Signature.Toy.{toy}
use nexus_chain.Primitives.Transaction.{Transaction, new_legacy, hash}
use nexus_chain.Rpc.Mempool.{Mempool, new_mempool, add, drain_batch}
use nexus_chain.Rpc.Mempool.Invariant.{accepts, IsMempool, add-IsMempool, drain_batch-IsMempool}

abbrev transfer : ℕ → Transaction
transfer nonce = new_legacy 1 nonce none 5 [] 21000 7

abbrev empty : Mempool
empty = new_mempool 2

empty-IsMempool : IsMempool toy empty
empty-IsMempool = (tt, λ h. refl, omega arith)

abbrev one_waits : Mempool
one_waits = (add toy empty (transfer 0)).1

one_waits-IsMempool : IsMempool toy one_waits
one_waits-IsMempool = (add-IsMempool toy empty (transfer 0) empty-IsMempool).0

add-IsMempool_example :
    let (answer, q) = add toy one_waits (transfer 1) in
    IsMempool toy q
    × (answer ≡ accepts toy one_waits (transfer 1))
    × (accepts toy one_waits (transfer 1) ≡ false → q ≡ one_waits)
    × (accepts toy one_waits (transfer 1) ≡ true
        → (q.pending ≡ one_waits.pending ++ (transfer 1 ∷ []))
          × (lookup (hash toy (transfer 1)) q.by_hash ≡ some (transfer 1))
          × ((h : Hash)
              → h ≢ hash toy (transfer 1)
              → lookup h q.by_hash ≡ lookup h one_waits.by_hash)
          × (q.max_size ≡ one_waits.max_size))
add-IsMempool_example = add-IsMempool toy one_waits (transfer 1) one_waits-IsMempool

drain_batch-IsMempool_example :
    IsMempool toy (drain_batch toy one_waits 5).1
    × ((drain_batch toy one_waits 5).0 ++ (drain_batch toy one_waits 5).1.pending
        ≡ one_waits.pending)
    × (length (drain_batch toy one_waits 5).0 ≡ min (length one_waits.pending) 5)
drain_batch-IsMempool_example = drain_batch-IsMempool toy one_waits 5 one_waits-IsMempool
