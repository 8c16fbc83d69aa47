-- ===== src/Primitives/Transaction/Tests.antt =====
-- Two transactions that differ in what is not signed.
use nexus_chain.Base.{◌≡◌, ◌↔◌, [], none, arith}
use nexus_chain.Primitives.Transaction.{Transaction, new_dynamic_fee, encode_for_signing}
use nexus_chain.Primitives.Transaction.Signing.{IsTransaction, SameSigned, signed_bytes_iff}

abbrev low_tip : Transaction
low_tip = new_dynamic_fee 1 0 none 5 [] 21000 7 1

abbrev high_tip : Transaction
high_tip = new_dynamic_fee 1 0 none 5 [] 21000 7 6

low_tip-IsTransaction : IsTransaction low_tip
low_tip-IsTransaction = record {
  chain_id_fits = omega arith;
  nonce_fits = omega arith;
  gas_limit_fits = omega arith;
  gas_price_fits = omega arith;
  to_fits = λ x e. cc;
  value_fits = omega arith;
  payload_fits = omega arith;
}

high_tip-IsTransaction : IsTransaction high_tip
high_tip-IsTransaction = record {
  chain_id_fits = omega arith;
  nonce_fits = omega arith;
  gas_limit_fits = omega arith;
  gas_price_fits = omega arith;
  to_fits = λ x e. cc;
  value_fits = omega arith;
  payload_fits = omega arith;
}

signed_bytes_iff_example :
    (encode_for_signing low_tip ≡ encode_for_signing high_tip) ↔ SameSigned low_tip high_tip
signed_bytes_iff_example =
    signed_bytes_iff low_tip high_tip low_tip-IsTransaction high_tip-IsTransaction
