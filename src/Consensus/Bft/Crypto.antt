-- ===== src/Consensus/Bft/Crypto.antt =====
-- The crates sha3 and k256, which the engine calls: a hash, and ECDSA over secp256k1 as far as
-- `verify_ecdsa` of bft.rs and `ValidatorKeys` of validator.rs use them.
use nexus_chain.Base.{ℕ, Bool, false, Option, none, some, List, to_be_bytes}
use nexus_chain.Consensus.Errors.{Address, Hash}

pub record Crypto : Type 1 where
  pub VerifyingKey : Type 0
  pub EcdsaSig : Type 0
  pub SigningKey : Type 0
  pub keccak256 : List ℕ → Hash
  pub from_sec1_bytes : List ℕ → Option VerifyingKey
  pub sig_from_bytes : List ℕ → Option EcdsaSig
  pub verify : VerifyingKey → List ℕ → EcdsaSig → Bool
  -- `sign` and then `to_bytes`
  pub sign_bytes : SigningKey → List ℕ → List ℕ

-- `Hash::as_bytes`
unfoldable pub as_bytes : Hash → List ℕ
as_bytes h = to_be_bytes 32 h

module _ (c : Crypto) where
  open c use {SigningKey, keccak256, from_sec1_bytes, sig_from_bytes, verify, sign_bytes}

  pub record ValidatorKeys : Type 0 where
    pub signing_key : SigningKey
    pub address : Address

  -- `ValidatorKeys::sign`
  unfoldable pub sign : ValidatorKeys → List ℕ → List ℕ
  sign keys message = sign_bytes keys.signing_key (as_bytes (keccak256 message))

  -- `ValidatorKeys::sign_hash`
  unfoldable pub sign_hash : ValidatorKeys → Hash → List ℕ
  sign_hash keys hash = sign_bytes keys.signing_key (as_bytes hash)

  unfoldable pub verify_ecdsa : List ℕ → List ℕ → List ℕ → Bool
  verify_ecdsa pubkey message sig_bytes = elim (from_sec1_bytes pubkey) [
    | none ↦ false
    | some vk ↦ elim (sig_from_bytes sig_bytes) [ none ↦ false | some sig ↦ verify vk message sig ]
  ]
