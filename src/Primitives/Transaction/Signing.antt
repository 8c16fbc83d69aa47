-- ===== src/Primitives/Transaction/Signing.antt =====
-- What a signature of transaction.rs covers.
use nexus_chain.Base.{
  ℕ, ◌<◌, ◌%◌, ◌^◌, ◌≡◌, ◌↔◌, refl, ap, List, ◌++◌, Option, none, some, arith, length, u64_mod,
  u256_mod, to_be_bytes,
}
use nexus_chain.Base.Bytes.{be_prefix-injective}
use nexus_chain.Primitives.Transaction.{
  TxType, type_byte, Transaction, recipient_bytes, encode_for_signing,
}

-- The widths of the fields.
pub record IsTransaction (tx : Transaction) : Type 0 where
  pub chain_id_fits : tx.chain_id < u64_mod
  pub nonce_fits : tx.nonce < u64_mod
  pub gas_limit_fits : tx.gas_limit < u64_mod
  pub gas_price_fits : tx.gas_price < u256_mod
  pub to_fits : (a : ℕ) → tx.to ≡ some a → a < 2 ^ 160
  pub value_fits : tx.value < u256_mod
  pub payload_fits : length tx.payload < 2 ^ 32

type_byte-injective : (t u : TxType) → type_byte t ≡ type_byte u → t ≡ u
type_byte-injective t u e = ground arith

recipient-injective :
    (a b : Option ℕ) (us vs : List ℕ)
    → ((x : ℕ) → a ≡ some x → x < 2 ^ 160)
    → ((x : ℕ) → b ≡ some x → x < 2 ^ 160)
    → recipient_bytes a ++ us ≡ recipient_bytes b ++ vs
    → (a ≡ b) × (us ≡ vs)
recipient-injective none none us vs ha hb e = (refl, cc)
recipient-injective none (some y) us vs ha hb e = ground arith
recipient-injective (some x) none us vs ha hb e = ground arith
recipient-injective (some x) (some y) us vs ha hb e =
    let tails : to_be_bytes 20 x ++ us ≡ to_be_bytes 20 y ++ vs = cc in
    let (same, rests) = be_prefix-injective 20 x y us vs (ha x refl) (hb y refl) tails in
    (ap some same, rests)

-- The fields that the signed bytes hold.
pub record SameSigned (tx ux : Transaction) : Type 0 where
  pub tx_types : tx.tx_type ≡ ux.tx_type
  pub chain_ids : tx.chain_id ≡ ux.chain_id
  pub nonces : tx.nonce ≡ ux.nonce
  pub gas_limits : tx.gas_limit ≡ ux.gas_limit
  pub gas_prices : tx.gas_price ≡ ux.gas_price
  pub recipients : tx.to ≡ ux.to
  pub amounts : tx.value ≡ ux.value
  pub payloads : tx.payload ≡ ux.payload

module _ (tx ux : Transaction) where
  abbrev payload_part : Transaction → List ℕ
  payload_part t = to_be_bytes 4 (length t.payload % 2 ^ 32) ++ t.payload

  abbrev value_part : Transaction → List ℕ
  value_part t = to_be_bytes 32 t.value ++ payload_part t

  abbrev to_part : Transaction → List ℕ
  to_part t = recipient_bytes t.to ++ value_part t

  abbrev price_part : Transaction → List ℕ
  price_part t = to_be_bytes 32 t.gas_price ++ to_part t

  abbrev limit_part : Transaction → List ℕ
  limit_part t = to_be_bytes 8 t.gas_limit ++ price_part t

  abbrev nonce_part : Transaction → List ℕ
  nonce_part t = to_be_bytes 8 t.nonce ++ limit_part t

  signed-SameSigned :
      IsTransaction tx
      → IsTransaction ux
      → encode_for_signing tx ≡ encode_for_signing ux
      → SameSigned tx ux
  unfolding encode_for_signing
  signed-SameSigned x y e =
      let first : type_byte tx.tx_type ≡ type_byte ux.tx_type = cc in
      let e0 : to_be_bytes 8 tx.chain_id ++ nonce_part tx
          ≡ to_be_bytes 8 ux.chain_id ++ nonce_part ux =
        cc in
      let (chains, e1) =
        be_prefix-injective 8 tx.chain_id ux.chain_id (nonce_part tx) (nonce_part ux)
          x.chain_id_fits y.chain_id_fits e0 in
      let (nonces, e2) =
        be_prefix-injective 8 tx.nonce ux.nonce (limit_part tx) (limit_part ux) x.nonce_fits
          y.nonce_fits e1 in
      let (limits, e3) =
        be_prefix-injective 8 tx.gas_limit ux.gas_limit (price_part tx) (price_part ux)
          x.gas_limit_fits y.gas_limit_fits e2 in
      let (prices, e4) =
        be_prefix-injective 32 tx.gas_price ux.gas_price (to_part tx) (to_part ux) x.gas_price_fits
          y.gas_price_fits e3 in
      let (tos, e5) =
        recipient-injective tx.to ux.to (value_part tx) (value_part ux) x.to_fits y.to_fits e4 in
      let (values, e6) =
        be_prefix-injective 32 tx.value ux.value (payload_part tx) (payload_part ux) x.value_fits
          y.value_fits e5 in
      let (lengths, payloads) =
        be_prefix-injective 4 (length tx.payload % 2 ^ 32) (length ux.payload % 2 ^ 32) tx.payload
          ux.payload (omega arith) (omega arith) e6 in
      record {
        tx_types = type_byte-injective tx.tx_type ux.tx_type first;
        chain_ids = chains;
        nonces = nonces;
        gas_limits = limits;
        gas_prices = prices;
        recipients = tos;
        amounts = values;
        payloads = payloads;
      }

  signed_same : SameSigned tx ux → encode_for_signing tx ≡ encode_for_signing ux
  unfolding encode_for_signing
  signed_same same = ground (
    arith, same.tx_types, same.chain_ids, same.nonces, same.gas_limits, same.gas_prices,
    same.recipients, same.amounts, same.payloads,
  )

  -- Two transactions sign the same bytes exactly when they agree on type, chain, nonce, gas limit,
  -- gas price, recipient, value and data. So the priority fee, the access list, the proof and the ISO
  -- message are not signed.
  pub signed_bytes_iff :
      IsTransaction tx
      → IsTransaction ux
      → (encode_for_signing tx ≡ encode_for_signing ux) ↔ SameSigned tx ux
  signed_bytes_iff x y = (signed-SameSigned x y, signed_same)
