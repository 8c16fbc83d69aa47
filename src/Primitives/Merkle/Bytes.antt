-- ===== src/Primitives/Merkle/Bytes.antt =====
-- The bytes that `vertex_hash` of crypto.rs hashes.
use nexus_chain.Base.{
  ℕ, ◌<◌, ◌^◌, ◌≡◌, refl, sym, ◌∙◌, List, [], ◌∷◌, ◌++◌, arith, length, All, to_le_bytes, u64_mod,
  u256_mod,
}
use nexus_chain.Base.Bytes.{to_be_bytes-injective, word_prefix-injective, be_prefix-injective}
use mathlib.Core.List.{flat_map, append_assoc}
use nexus_chain.Primitives.Merkle.{Hash, hash_bytes, vertex_bytes}

-- As many hashes on either side, in front of two rests.
pub hashes_prefix-injective :
    (hs ks : List Hash) (us vs : List ℕ)
    → All (λ h. h < u256_mod) hs
    → All (λ k. k < u256_mod) ks
    → length hs ≡ length ks
    → flat_map hash_bytes hs ++ us ≡ flat_map hash_bytes ks ++ vs
    → (hs ≡ ks) × (us ≡ vs)
unfolding flat_map
hashes_prefix-injective [] [] us vs bh bk same e = (refl, e)
hashes_prefix-injective [] (k ∷ ks) us vs bh bk same e = ground arith
hashes_prefix-injective (h ∷ hs) [] us vs bh bk same e = ground arith
hashes_prefix-injective (h ∷ hs) (k ∷ ks) us vs bh bk same e =
    let (first, rest) =
      be_prefix-injective 32 h k (flat_map hash_bytes hs ++ us) (flat_map hash_bytes ks ++ vs) bh.0
        bk.0
        (sym (append_assoc (hash_bytes h) (flat_map hash_bytes hs) us)
          ∙ e
          ∙ append_assoc (hash_bytes k) (flat_map hash_bytes ks) vs) in
    let (others, tails) = hashes_prefix-injective hs ks us vs bh.1 bk.1 (omega arith) rest in
    (cc, tails)

-- What a vertex is identified by, within the widths of its fields.
pub record IsVertexData (parents transactions : List Hash) (timestamp : ℕ) (validator : Hash)
    : Type 0 where
  pub parents_fit : All (λ h. h < u256_mod) parents
  pub transactions_fit : All (λ h. h < u256_mod) transactions
  pub few_parents : length parents < 2 ^ 32
  pub few_transactions : length transactions < 2 ^ 32
  pub timestamp_fits : timestamp < u64_mod
  pub validator_fits : validator < u256_mod

-- The hashed bytes fix the parents and the transactions, in their order, the timestamp and the
-- validator.
pub vertex_bytes-injective :
    (ps ts : List Hash) (time : ℕ) (v : Hash) (qs us : List Hash) (time' : ℕ) (w : Hash)
    → IsVertexData ps ts time v
    → IsVertexData qs us time' w
    → vertex_bytes ps ts time v ≡ vertex_bytes qs us time' w
    → (ps ≡ qs) × (ts ≡ us) × (time ≡ time') × (v ≡ w)
unfolding vertex_bytes
vertex_bytes-injective ps ts time v qs us time' w x y e =
    let last = to_le_bytes 8 time ++ hash_bytes v in
    let last' = to_le_bytes 8 time' ++ hash_bytes w in
    let mid = to_le_bytes 4 (length ts) ++ (flat_map hash_bytes ts ++ last) in
    let mid' = to_le_bytes 4 (length us) ++ (flat_map hash_bytes us ++ last') in
    let (many, e1) =
      word_prefix-injective 4 (length ps) (length qs) (flat_map hash_bytes ps ++ mid)
        (flat_map hash_bytes qs ++ mid') x.few_parents y.few_parents e in
    let (parents, e2) =
      hashes_prefix-injective ps qs mid mid' x.parents_fit y.parents_fit many e1 in
    let (many', e3) =
      word_prefix-injective 4 (length ts) (length us) (flat_map hash_bytes ts ++ last)
        (flat_map hash_bytes us ++ last') x.few_transactions y.few_transactions e2 in
    let (txs, e4) =
      hashes_prefix-injective ts us last last' x.transactions_fit y.transactions_fit many' e3 in
    let (times, e5) =
      word_prefix-injective 8 time time' (hash_bytes v) (hash_bytes w) x.timestamp_fits
        y.timestamp_fits e4 in
    (parents, txs, times, to_be_bytes-injective 32 v w x.validator_fits y.validator_fits e5)
