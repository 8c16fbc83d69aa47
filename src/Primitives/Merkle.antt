-- ===== src/Primitives/Merkle.antt =====
-- `compute_merkle_root` and `vertex_hash` of crates/nexus-primitives/src/crypto.rs. Blake3 is the
-- parameter `blake3`; a hash is the number of its 32 bytes.
pub mod Root
pub mod Bytes
mod Tests
use nexus_chain.Base.{
  ℕ, zero, suc, List, [], ◌∷◌, ◌++◌, Option, none, some, length, to_le_bytes, to_be_bytes, ◌%◌,
}
use mathlib.Core.List.{flat_map}

abbrev pub Hash : Type 0
Hash = ℕ

-- `blake3_hash`, `Hash::as_bytes` included
abbrev pub hash_bytes : Hash → List ℕ
hash_bytes h = to_be_bytes 32 h

-- What `vertex_hash` feeds to the hasher.
unfoldable pub vertex_bytes : List Hash → List Hash → ℕ → Hash → List ℕ
vertex_bytes parents transactions timestamp validator =
    to_le_bytes 4 (length parents)
    ++ (flat_map hash_bytes parents
        ++ (to_le_bytes 4 (length transactions)
            ++ (flat_map hash_bytes transactions
                ++ (to_le_bytes 8 timestamp ++ hash_bytes validator))))

module _ (blake3 : List ℕ → Hash) where
  -- `blake3_hash` of the bytes of two hashes.
  abbrev pub combine : Hash → Hash → Hash
  combine a b = blake3 (hash_bytes a ++ hash_bytes b)

  -- One level: the chunks of two; an odd last hash is taken twice.
  unfoldable pub next_level : List Hash → List Hash
  next_level [] = []
  next_level (a ∷ []) = combine a a ∷ []
  next_level (a ∷ b ∷ rest) = combine a b ∷ next_level rest

  -- The `while` loop, with fuel for its rounds: `none` where the fuel does not reach.
  unfoldable pub merkle_loop : ℕ → List Hash → Option Hash
  merkle_loop fuel [] = some 0
  merkle_loop fuel (a ∷ []) = some a
  merkle_loop zero (a ∷ b ∷ rest) = none
  merkle_loop (suc fuel) (a ∷ b ∷ rest) = merkle_loop fuel (next_level (a ∷ b ∷ rest))

  unfoldable pub compute_merkle_root : List Hash → Option Hash
  compute_merkle_root hashes = merkle_loop (length hashes) hashes

  unfoldable pub vertex_hash : List Hash → List Hash → ℕ → Hash → Hash
  vertex_hash parents transactions timestamp validator =
      blake3 (vertex_bytes parents transactions timestamp validator)
