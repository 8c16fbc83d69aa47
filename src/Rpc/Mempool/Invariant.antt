-- ===== src/Rpc/Mempool/Invariant.antt =====
-- The two collections of the pool of mempool.rs stay in step.
use nexus_chain.Base.{
  ℕ, zero, suc, ◌≤◌, ◌<◌, ◌≡◌, refl, sym, ◌∙◌, ap, Bool, true, false, ◌≢◌, some, not, ◌&&◌, List,
  [], ◌∷◌, ◌++◌, map, inl, inr, arith, ◌==◌, leb, ltb, elem, elem-append, length, length-append,
  take, drop, min, Bool-cases, ==→eq,
}
use mathlib.Core.Path.{subst}
use nexus_chain.Base.Map.{Map, lookup, insert, remove, contains_key, lookup-insert}
use nexus_chain.Primitives.Merkle.{Hash}
use nexus_chain.Primitives.Signature.{Secp}
use nexus_chain.Primitives.Transaction.{Transaction, hash}
use nexus_chain.Rpc.Mempool.{Mempool, add, remove_all, drain_batch}

contains_key-remove :
    {V : Type 0} (h k : ℕ) (m : Map V)
    → contains_key h (remove k m) ≡ (not (h == k) && contains_key h m)
contains_key-remove h k [] = ground arith
contains_key-remove h k (e ∷ m) = ground (arith, contains_key-remove h k m)

module _ (c : Secp) where
  abbrev pub hashes : List Transaction → List Hash
  hashes txs = map (hash c) txs

  abbrev pub NoDup : List Hash → Type 0
  NoDup [] = Unit
  NoDup (h ∷ hs) = (elem h hs ≡ false) × NoDup hs

  -- No transaction waits twice, the table holds exactly the waiting ones, and the pool is within its size.
  abbrev pub IsMempool : Mempool → Type 0
  IsMempool p =
      NoDup (hashes p.pending)
      × ((h : Hash) → contains_key h p.by_hash ≡ elem h (hashes p.pending))
      × (length p.pending ≤ p.max_size)

  take-drop : (k : ℕ) (txs : List Transaction) → take k txs ++ drop k txs ≡ txs
  take-drop zero txs = refl
  take-drop (suc k) [] = refl
  take-drop (suc k) (tx ∷ txs) = ap (λ l. tx ∷ l) (take-drop k txs)

  length-drop : (k : ℕ) (txs : List Transaction) → length (drop k txs) ≤ length txs
  length-drop zero txs = omega arith
  length-drop (suc k) [] = omega arith
  length-drop (suc k) (tx ∷ txs) = omega (arith, length-drop k txs)

  length-take : (k : ℕ) (txs : List Transaction) → k ≤ length txs → length (take k txs) ≡ k
  length-take zero txs le = refl
  length-take (suc k) [] le = omega arith
  length-take (suc k) (tx ∷ txs) le = ap suc (length-take k txs (omega arith))

  has_room :
      (p : Mempool) → leb p.max_size (length p.pending) ≡ false → length p.pending < p.max_size
  has_room p room = ground arith

  hashes-append : (xs ys : List Transaction) → hashes (xs ++ ys) ≡ hashes xs ++ hashes ys
  hashes-append [] ys = refl
  hashes-append (x ∷ xs) ys = ap (λ l. hash c x ∷ l) (hashes-append xs ys)

  append-NoDup : (h : Hash) (hs : List Hash) → NoDup hs → elem h hs ≡ false → NoDup (hs ++ (h ∷ []))
  append-NoDup h [] n new = (refl, tt)
  append-NoDup h (x ∷ hs) n new =
      (ground (arith, elem-append x hs (h ∷ []), n.0), append-NoDup h hs n.1 (ground arith))

  drop-NoDup : (k : ℕ) (txs : List Transaction) → NoDup (hashes txs) → NoDup (hashes (drop k txs))
  drop-NoDup zero txs n = n
  drop-NoDup (suc k) [] n = tt
  drop-NoDup (suc k) (tx ∷ txs) n = drop-NoDup k txs n.1

  -- What is taken is not among what is left.
  elem-drop :
      (k : ℕ) (txs : List Transaction) (h : Hash)
      → NoDup (hashes txs)
      → elem h (hashes (drop k txs)) ≡ (elem h (hashes txs) && not (elem h (hashes (take k txs))))
  elem-drop zero txs h n = ground arith
  elem-drop (suc k) [] h n = refl
  elem-drop (suc k) (tx ∷ txs) h n = elim (Bool-cases (h == hash c tx)) [
    | inl same ↦ ground (
      arith,
      elem-drop k txs h n.1,
      n.0,
      ap (λ x. elem x (hashes txs)) (==→eq h (hash c tx) same),
    )
    | inr other ↦ ground (arith, elem-drop k txs h n.1)
  ]

  contains_key-remove_all :
      (txs : List Transaction) (m : Map Transaction) (h : Hash)
      → contains_key h (remove_all c txs m) ≡ (contains_key h m && not (elem h (hashes txs)))
  contains_key-remove_all [] m h = ground arith
  contains_key-remove_all (tx ∷ txs) m h = ground (
    arith,
    contains_key-remove_all txs (remove (hash c tx) m) h,
    contains_key-remove h (hash c tx) m,
  )

  -- Exactly a new transaction that finds room is accepted.
  abbrev pub accepts : Mempool → Transaction → Bool
  accepts p tx = not (elem (hash c tx) (hashes p.pending)) && ltb (length p.pending) p.max_size

  accepted-Mempool :
      (p : Mempool) (tx : Transaction)
      → IsMempool p
      → contains_key (hash c tx) p.by_hash ≡ false
      → leb p.max_size (length p.pending) ≡ false
      → IsMempool
          (record p { by_hash = insert (hash c tx) tx p.by_hash; pending = p.pending ++ (tx ∷ []) })
  accepted-Mempool p tx (n, k, le) new room = (
    subst NoDup (sym (hashes-append p.pending (tx ∷ [])))
        (append-NoDup (hash c tx) (hashes p.pending) n (sym (k (hash c tx)) ∙ new)),
    λ h. ground (
      arith,
      lookup-insert h (hash c tx) tx p.by_hash,
      k h,
      elem-append h (hashes p.pending) (hash c tx ∷ []),
      ap (elem h) (hashes-append p.pending (tx ∷ [])),
    ),
    omega (arith, length-append p.pending (tx ∷ []), has_room p room),
  )

  -- `add` to a pool whose queue and table are in step. It answers whether the transaction is new and
  -- finds room. When it is refused, the pool is the same in every part. When it is accepted, it is
  -- last in the queue and found under its hash, every other hash is found as before, and the size
  -- limit stays. Queue and table are in step afterwards.
  pub add-IsMempool :
      (p : Mempool) (tx : Transaction)
      → IsMempool p
      → let (answer, q) = add c p tx in
        IsMempool q
        × (answer ≡ accepts p tx)
        × (accepts p tx ≡ false → q ≡ p)
        × (accepts p tx ≡ true
            → (q.pending ≡ p.pending ++ (tx ∷ []))
              × (lookup (hash c tx) q.by_hash ≡ some tx)
              × ((h : Hash) → h ≢ hash c tx → lookup h q.by_hash ≡ lookup h p.by_hash)
              × (q.max_size ≡ p.max_size))
  unfolding add
  add-IsMempool p tx (n, k, le) = elim (Bool-cases (contains_key (hash c tx) p.by_hash)) [
    | inl known ↦
        rw known (
          (n, k, le),
          ground (arith, k (hash c tx)),
          λ _. refl,
          λ yes. ground (arith, k (hash c tx)),
        )
    | inr new ↦ elim (Bool-cases (leb p.max_size (length p.pending))) [
      | inl full ↦ rw (new, full) ((n, k, le), ground arith, λ _. refl, λ yes. ground arith)
      | inr room ↦
          rw (new, room)
            (
              accepted-Mempool p tx (n, k, le) new room,
              ground (arith, k (hash c tx)),
              λ no. ground (arith, k (hash c tx)),
              λ yes. (
                refl,
                lookup-insert (hash c tx) (hash c tx) tx p.by_hash ∙ ground arith,
                λ h other. lookup-insert h (hash c tx) tx p.by_hash ∙ ground arith,
                refl,
              ),
            )
    ]
  ]

  -- `drain_batch` takes the first transactions in order, `limit` of them or all when fewer
  -- wait; the rest waits on, and the pool's two collections stay in step.
  pub drain_batch-IsMempool :
      (p : Mempool) (limit : ℕ)
      → IsMempool p
      → IsMempool (drain_batch c p limit).1
        × ((drain_batch c p limit).0 ++ (drain_batch c p limit).1.pending ≡ p.pending)
        × (length (drain_batch c p limit).0 ≡ min (length p.pending) limit)
  unfolding drain_batch
  drain_batch-IsMempool p limit (n, k, le) =
      let count = min (length p.pending) limit in
      (
        (
          drop-NoDup count p.pending n,
          λ h.
              contains_key-remove_all (take count p.pending) p.by_hash h
              ∙ ap (λ b. b && not (elem h (hashes (take count p.pending)))) (k h)
              ∙ sym (elem-drop count p.pending h n),
          omega (arith, length-drop count p.pending),
        ),
        take-drop count p.pending,
        length-take count p.pending (omega arith),
      )
