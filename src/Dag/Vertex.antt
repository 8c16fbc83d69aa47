-- ===== src/Dag/Vertex.antt =====
-- `Vertex` of crates/nexus-dag/src/vertex.rs and its structural checks.
use nexus_chain.Base.{
  ℕ, ◌+◌, ◌*◌, ◌%◌, ◌^◌, ◌-◌, Bool, true, false, not, ◌&&◌, List, [], Option, none, some, Result,
  ok, err, if◌then◌else◌, ◌==◌, ltb, length, map, sum, to_be_bytes,
}
use nexus_chain.Primitives.Errors.{
  NexusError, no_parents, too_many_parents, too_many_transactions, invalid_merkle_root,
  invalid_hash,
}
use nexus_chain.Primitives.Merkle.{Hash, compute_merkle_root, vertex_hash}
use nexus_chain.Primitives.Signature.{EcdsaSignature, Secp}
use nexus_chain.Primitives.Transaction.{Transaction, hash}

pub record Vertex : Type 0 where
  pub hash : Hash
  pub parents : List Hash
  pub height : ℕ
  pub timestamp : ℕ
  pub validator : Hash
  pub transactions : List Transaction
  pub tx_root : Hash
  pub state_root : Hash
  pub receipts_root : Hash
  pub weight : ℕ
  pub signature : EcdsaSignature
  pub version : ℕ
  pub extra_data : List ℕ

pub data VertexStatus : Type 0 where
  pending_status awaiting_parents confirmed finalized rejected orphaned : VertexStatus

abbrev pub zero_signature : EcdsaSignature
zero_signature = record { r = 0; s = 0; v = 0 }

abbrev pub genesis : ℕ → ℕ → Vertex
genesis chain_id timestamp = record {
  hash = 0;
  parents = [];
  height = 0;
  timestamp = timestamp;
  validator = 0;
  transactions = [];
  tx_root = 0;
  state_root = 0;
  receipts_root = 0;
  weight = 2 ^ 128 - 1;
  signature = zero_signature;
  version = 1;
  extra_data = to_be_bytes 8 chain_id;
}

abbrev pub no_hashes : List Hash → Bool
no_hashes [] = true
no_hashes _ = false

abbrev pub is_genesis : Vertex → Bool
is_genesis v = no_hashes v.parents && v.height == 0

abbrev pub max_parents : ℕ
max_parents = 8

abbrev pub max_transactions : ℕ
max_transactions = 1000

abbrev pub is_hash : Option Hash → Hash → Bool
is_hash none h = false
is_hash (some k) h = k == h

pub record VertexHeader : Type 0 where
  pub hash : Hash
  pub parents : List Hash
  pub height : ℕ
  pub timestamp : ℕ
  pub validator : Hash
  pub tx_root : Hash
  pub state_root : Hash
  pub receipts_root : Hash
  pub weight : ℕ
  pub tx_count : ℕ

abbrev pub header_of : Vertex → VertexHeader
header_of v = record {
  hash = v.hash;
  parents = v.parents;
  height = v.height;
  timestamp = v.timestamp;
  validator = v.validator;
  tx_root = v.tx_root;
  state_root = v.state_root;
  receipts_root = v.receipts_root;
  weight = v.weight;
  tx_count = length v.transactions % 2 ^ 32;
}

-- `size`, in usize: no vertex comes near its end.
abbrev pub size : Vertex → ℕ
size v =
    32
    + length v.parents * 32
    + 8
    + 8
    + 32
    + 32
    + 32
    + 32
    + 16
    + 65
    + 4
    + length v.extra_data
    + sum (map (λ tx. length tx.payload + 200) v.transactions)

module _ (c : Secp) where
  abbrev pub tx_hashes : Vertex → List Hash
  tx_hashes v = map (hash c) v.transactions

  -- Vertex::new, with the clock's time. The address of 20 bytes is padded to 32 with zeros behind.
  unfoldable pub new_vertex : ℕ → List Hash → List Hash → ℕ → ℕ → Option Vertex
  new_vertex validator parents txs height now =
      let id = validator * 2 ^ 96 in
      elim (compute_merkle_root c.blake3 txs) [
        | none ↦ none
        | some root ↦ some (record {
          hash = vertex_hash c.blake3 parents txs now id;
          parents = parents;
          height = height;
          timestamp = now;
          validator = id;
          transactions = [];
          tx_root = root;
          state_root = 0;
          receipts_root = 0;
          weight = 1;
          signature = zero_signature;
          version = 1;
          extra_data = [];
        })
      ]

  -- A root that the loop had no fuel for would count as wrong: there is none.
  unfoldable pub verify_structure : Vertex → Result NexusError Unit
  verify_structure v =
      if not (is_genesis v) && no_hashes v.parents
      then err no_parents
      else if ltb max_parents (length v.parents)
      then err (too_many_parents (length v.parents))
      else if ltb max_transactions (length v.transactions)
      then err (too_many_transactions (length v.transactions))
      else if not (is_hash (compute_merkle_root c.blake3 (tx_hashes v)) v.tx_root)
      then err invalid_merkle_root
      else if not (vertex_hash c.blake3 v.parents (tx_hashes v) v.timestamp v.validator == v.hash)
      then err invalid_hash
      else ok tt
