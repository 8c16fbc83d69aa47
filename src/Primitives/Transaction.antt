-- ===== src/Primitives/Transaction.antt =====
-- `Transaction` of crates/nexus-primitives/src/transaction.rs. A `String` and a `Vec<u8>` are lists of
-- bytes, an address the number of its 20 bytes, a `U256` the number of its limbs.
pub mod Signing
mod Tests
use nexus_chain.Base.{
  ℕ, ◌+◌, ◌*◌, ◌%◌, ◌<◌, Bool, true, false, List, [], ◌∷◌, ◌++◌, Option, none, some, Result, ok,
  err, if◌then◌else◌, ◌==◌, ltb, add64, sum64, length, map, to_be_bytes, ◌^◌,
}
use nexus_chain.Primitives.Errors.{
  NexusError, missing_signature, gas_limit_below_intrinsic, transaction_too_large,
  missing_zkp_proof, missing_iso_data,
}
use nexus_chain.Primitives.Merkle.{Hash}
use nexus_chain.Primitives.Signature.{
  EcdsaSignature, signature_bytes, Secp, recover_public_key, to_address,
}

pub data TxType : Type 0 where
  legacy access_list dynamic_fee private iso_payment system : TxType

-- `tx_type as u8`
abbrev pub type_byte : TxType → ℕ
type_byte legacy = 0
type_byte access_list = 1
type_byte dynamic_fee = 2
type_byte private = 0x80
type_byte iso_payment = 0x81
type_byte system = 0xFF

pub record AccessListEntry : Type 0 where
  pub address : ℕ
  pub storage_keys : List Hash

pub data ZkpProofType : Type 0 where
  groth16 plonk stark : ZkpProofType

pub record ZkpProofData : Type 0 where
  pub proof_type : ZkpProofType
  pub proof : List ℕ
  pub public_inputs : List Hash
  pub nullifiers : List Hash
  pub commitments : List Hash

pub data IsoMessageType : Type 0 where
  credit_transfer payment_status account_statement direct_debit payment_return : IsoMessageType

pub record PostalAddress : Type 0 where
  pub street_name : Option (List ℕ)
  pub building_number : Option (List ℕ)
  pub postal_code : Option (List ℕ)
  pub town_name : Option (List ℕ)
  pub country : List ℕ

pub record PartyInfo : Type 0 where
  pub name : List ℕ
  pub account : List ℕ
  pub bic : Option (List ℕ)
  pub lei : Option (List ℕ)
  pub address : Option PostalAddress

pub record IsoAmount : Type 0 where
  pub value : ℕ
  pub currency : List ℕ

pub record IsoMessageData : Type 0 where
  pub message_type : IsoMessageType
  pub msg_id : List ℕ
  pub creation_timestamp : List ℕ
  pub instructing_agent : Option (List ℕ)
  pub instructed_agent : Option (List ℕ)
  pub debtor : Option PartyInfo
  pub creditor : Option PartyInfo
  pub amount : Option IsoAmount
  pub raw_xml : Option (List ℕ)

pub record Transaction : Type 0 where
  pub tx_type : TxType
  pub chain_id : ℕ
  pub nonce : ℕ
  pub to : Option ℕ
  pub value : ℕ
  pub payload : List ℕ
  pub gas_limit : ℕ
  pub gas_price : ℕ
  pub max_priority_fee : Option ℕ
  pub access_entries : List AccessListEntry
  pub zkp_proof : Option ZkpProofData
  pub iso_data : Option IsoMessageData
  pub signature : Option EcdsaSignature

abbrev pub new_legacy : ℕ → ℕ → Option ℕ → ℕ → List ℕ → ℕ → ℕ → Transaction
new_legacy chain_id nonce to value payload gas_limit gas_price = record {
  tx_type = legacy;
  chain_id = chain_id;
  nonce = nonce;
  to = to;
  value = value;
  payload = payload;
  gas_limit = gas_limit;
  gas_price = gas_price;
  max_priority_fee = none;
  access_entries = [];
  zkp_proof = none;
  iso_data = none;
  signature = none;
}

abbrev pub new_dynamic_fee : ℕ → ℕ → Option ℕ → ℕ → List ℕ → ℕ → ℕ → ℕ → Transaction
new_dynamic_fee chain_id nonce to value payload gas_limit max_fee_per_gas max_priority_fee =
    record (new_legacy chain_id nonce to value payload gas_limit max_fee_per_gas) {
      tx_type = dynamic_fee;
      max_priority_fee = some max_priority_fee;
    }

abbrev pub new_private : ℕ → ℕ → ZkpProofData → Transaction
new_private chain_id nonce proof = record (new_legacy chain_id nonce none 0 [] 500000 1000000000) {
  tx_type = private;
  zkp_proof = some proof;
}

-- `Address::SYSTEM_ISO`
abbrev pub system_iso : ℕ
system_iso = 0x30

abbrev pub new_iso_payment : ℕ → ℕ → IsoMessageData → ℕ → ℕ → Transaction
new_iso_payment chain_id nonce message gas_limit gas_price =
    record (new_legacy chain_id nonce (some system_iso) 0 [] gas_limit gas_price) {
      tx_type = iso_payment;
      iso_data = some message;
    }

abbrev pub recipient_bytes : Option ℕ → List ℕ
recipient_bytes none = 0 ∷ []
recipient_bytes (some to) = 1 ∷ to_be_bytes 20 to

unfoldable pub encode_for_signing : Transaction → List ℕ
encode_for_signing tx =
    type_byte tx.tx_type
    ∷ (to_be_bytes 8 tx.chain_id
        ++ (to_be_bytes 8 tx.nonce
            ++ (to_be_bytes 8 tx.gas_limit
                ++ (to_be_bytes 32 tx.gas_price
                    ++ (recipient_bytes tx.to
                        ++ (to_be_bytes 32 tx.value
                            ++ (to_be_bytes 4 (length tx.payload % 2 ^ 32) ++ tx.payload)))))))

abbrev pub optional_signature : Option EcdsaSignature → List ℕ
optional_signature none = []
optional_signature (some sig) = signature_bytes sig

unfoldable pub encode : Transaction → List ℕ
encode tx = encode_for_signing tx ++ optional_signature tx.signature

-- The price of a byte of the data.
abbrev pub payload_byte_gas : ℕ → ℕ
payload_byte_gas byte = if byte == 0 then 4 else 16

abbrev pub base_gas : TxType → ℕ
base_gas private = 100000
base_gas iso_payment = 50000
base_gas system = 0
base_gas _ = 21000

abbrev pub creation_gas : Option ℕ → ℕ
creation_gas none = 32000
creation_gas (some _) = 0

unfoldable pub transaction_gas : Transaction → ℕ
transaction_gas tx =
    add64 (add64 (base_gas tx.tx_type) (sum64 (map payload_byte_gas tx.payload)))
      (creation_gas tx.to)

abbrev pub max_tx_size : ℕ
max_tx_size = 131072

-- The checks that depend on the type.
abbrev pub validate_type : Transaction → TxType → Result NexusError Unit
validate_type tx private = elim tx.zkp_proof [ none ↦ err missing_zkp_proof | some _ ↦ ok tt ]
validate_type tx iso_payment = elim tx.iso_data [ none ↦ err missing_iso_data | some _ ↦ ok tt ]
validate_type tx _ = ok tt

unfoldable pub validate : Transaction → Result NexusError Unit
validate tx =
    if ltb tx.gas_limit (transaction_gas tx)
    then err gas_limit_below_intrinsic
    else if ltb max_tx_size (length tx.payload)
    then err transaction_too_large
    else validate_type tx tx.tx_type

pub record SignedTransaction : Type 0 where
  pub transaction : Transaction
  pub tx_hash : Hash
  pub sender : ℕ

module _ (c : Secp) where
  open c use {keccak256, blake3}

  unfoldable pub signing_hash : Transaction → Hash
  signing_hash tx = keccak256 (encode_for_signing tx)

  unfoldable pub hash : Transaction → Hash
  hash tx = blake3 (encode tx)

  unfoldable pub recover_sender : Transaction → Result NexusError ℕ
  recover_sender tx = elim tx.signature [
    | none ↦ err missing_signature
    | some sig ↦ elim (recover_public_key c (signing_hash tx) sig) [
      | err e ↦ err e
      | ok key ↦ ok (to_address c key)
    ]
  ]

  unfoldable pub new_signed : Transaction → Result NexusError SignedTransaction
  new_signed tx = elim (recover_sender tx) [
    | err e ↦ err e
    | ok sender ↦ ok (record { transaction = tx; tx_hash = hash tx; sender = sender })
  ]
