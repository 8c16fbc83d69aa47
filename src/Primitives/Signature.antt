-- ===== src/Primitives/Signature.antt =====
-- Signatures and keys of crates/nexus-primitives/src/crypto.rs. The crates k256, sha3 and blake3 are
-- the parameter `Secp`: secp256k1 as far as the file uses it, and the two hashes.
pub mod Toy
use nexus_chain.Base.{
  ℕ, ◌+◌, ◌-◌, ◌%◌, Bool, List, [], ◌∷◌, ◌++◌, Option, none, some, Result, ok, err, if◌then◌else◌,
  ◌==◌, length, drop, to_be_bytes, ◌^◌,
}
use nexus_chain.Primitives.Errors.{
  NexusError, invalid_public_key, invalid_public_key_length, invalid_signature_format,
  invalid_recovery_id, recovery_failed, signing_failed,
}
use nexus_chain.Primitives.Merkle.{Hash, hash_bytes}

-- `r` and `s` are the numbers of their 32 bytes, `v` is a byte.
pub record EcdsaSignature : Type 0 where
  pub r : ℕ
  pub s : ℕ
  pub v : ℕ

unfoldable pub signature_bytes : EcdsaSignature → List ℕ
signature_bytes sig = to_be_bytes 32 sig.r ++ (to_be_bytes 32 sig.s ++ (sig.v ∷ []))

-- The 64 bytes of `r` and `s` that k256 reads.
abbrev pub scalar_bytes : EcdsaSignature → List ℕ
scalar_bytes sig = to_be_bytes 32 sig.r ++ to_be_bytes 32 sig.s

pub record Secp : Type 1 where
  pub SigningKey : Type 0
  pub VerifyingKey : Type 0
  pub RawSignature : Type 0
  pub RecoveryId : Type 0
  pub keccak256 : List ℕ → Hash
  pub blake3 : List ℕ → Hash
  pub from_sec1_bytes : List ℕ → Option VerifyingKey
  -- `to_encoded_point(false)`
  pub encoded_point : VerifyingKey → List ℕ
  pub raw_signature : List ℕ → Option RawSignature
  pub recovery_id : ℕ → Option RecoveryId
  pub verify_prehash : VerifyingKey → List ℕ → RawSignature → Bool
  pub recover_from_prehash : List ℕ → RawSignature → RecoveryId → Option VerifyingKey
  -- `sign_prehash_recoverable`: the numbers `r` and `s`, and the byte of the recovery id
  pub sign_prehash : SigningKey → List ℕ → Option (ℕ × ℕ × ℕ)

-- A public key is the list of its 64 bytes.
abbrev pub PublicKey : Type 0
PublicKey = List ℕ

module _ (c : Secp) where
  open c use {
    SigningKey, VerifyingKey, keccak256, from_sec1_bytes, encoded_point, raw_signature, recovery_id,
    verify_prehash, recover_from_prehash, sign_prehash,
  }

  unfoldable pub to_address : PublicKey → ℕ
  to_address key = keccak256 key % 2 ^ 160

  unfoldable pub to_verifying_key : PublicKey → Result NexusError VerifyingKey
  to_verifying_key key = elim (from_sec1_bytes (0x04 ∷ key)) [
    | none ↦ err invalid_public_key
    | some vk ↦ ok vk
  ]

  unfoldable pub sign_hash : SigningKey → Hash → Result NexusError EcdsaSignature
  sign_hash key message_hash = elim (sign_prehash key (hash_bytes message_hash)) [
    | none ↦ err signing_failed
    | some (r, s, id) ↦ ok (record { r = r; s = s; v = (id + 27) % 256 })
  ]

  unfoldable pub verify_signature : Hash → EcdsaSignature → PublicKey → Result NexusError Bool
  verify_signature message_hash sig key = elim (to_verifying_key key) [
    | err e ↦ err e
    | ok vk ↦ elim (raw_signature (scalar_bytes sig)) [
      | none ↦ err invalid_signature_format
      | some raw ↦ elim (recovery_id (sig.v - 27)) [
        | none ↦ err invalid_recovery_id
        | some _ ↦ ok (verify_prehash vk (hash_bytes message_hash) raw)
      ]
    ]
  ]

  -- The point without its prefix byte.
  abbrev pub key_of_point : List ℕ → Result NexusError PublicKey
  key_of_point bytes =
      if length bytes == 65 then ok (drop 1 bytes) else err invalid_public_key_length

  unfoldable pub recover_public_key : Hash → EcdsaSignature → Result NexusError PublicKey
  recover_public_key message_hash sig = elim (raw_signature (scalar_bytes sig)) [
    | none ↦ err invalid_signature_format
    | some raw ↦ elim (recovery_id (sig.v - 27)) [
      | none ↦ err invalid_recovery_id
      | some id ↦ elim (recover_from_prehash (hash_bytes message_hash) raw id) [
        | none ↦ err recovery_failed
        | some vk ↦ key_of_point (encoded_point vk)
      ]
    ]
  ]
