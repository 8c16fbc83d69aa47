-- ===== src/Primitives/Signature/Toy.antt =====
-- A concrete `Secp` for the tests: hashes are sums of bytes, and a key signs with its own number.
use nexus_chain.Base.{ℕ, List, sum, some, true}
use nexus_chain.Primitives.Signature.{Secp}

abbrev pub toy : Secp
toy = record {
  SigningKey = ℕ;
  VerifyingKey = List ℕ;
  RawSignature = List ℕ;
  RecoveryId = ℕ;
  keccak256 = sum;
  blake3 = sum;
  from_sec1_bytes = λ bytes. some bytes;
  encoded_point = λ point. point;
  raw_signature = λ bytes. some bytes;
  recovery_id = λ v. some v;
  verify_prehash = λ key message raw. true;
  recover_from_prehash = λ message raw id. some raw;
  sign_prehash = λ key message. some (key, key, 0);
}
