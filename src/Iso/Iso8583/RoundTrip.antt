-- ===== src/Iso/Iso8583/RoundTrip.antt =====
-- A message of iso8583.rs is parsed back from the bytes it is serialized to.
use nexus_chain.Base.{
  ℕ, ◌^◌, ◌<◌, ◌≡◌, refl, sym, ◌∙◌, ap, Bool, true, false, ◌||◌, List, [], ◌++◌, Option, none, some,
  ok, arith, if◌then◌else◌, ltb, elem, elem-append, length, length-append, to_be_bytes, to_le_bytes,
  of_le_bytes,
}
use mathlib.Core.List.{append-nil, reverse-reverse}
use nexus_chain.Base.Map.{Map, lookup, keys, contains_key}
use nexus_chain.Base.Bytes.{length-to_be_bytes, of_le-to_le}
use nexus_chain.Iso.Iso8583.{
  MessageType, authorization_request, authorization_response, financial_request, financial_response,
  reversal_request, reversal_response, network_management_request, network_management_response,
  Iso8583Message, from_code, to_code, test_bit, take_bytes, take_mti, take_bitmap, take_secondary,
  take_elements, take_secondary_elements, parse_iso8583, mti_text, sort, encode_elements,
  secondary_bytes, serialize_iso8583, from_be_bytes,
}
use nexus_chain.Iso.Iso8583.Elements.{
  secondary_ids, all_ids, is_present, IsWord, IsMessage, AreFields, one_result,
  encode_elements-append, take_elements-encode_elements, sort-keys_all_ids, announced_fields,
}
use nexus_chain.Iso.Iso8583.Bits.{ids_of}
use nexus_chain.Iso.Iso8583.Fields.{take_bytes-append}
use nexus_chain.Iso.Iso8583.Sorted.{}

from_code-to_code : (mti : MessageType) → from_code (to_code mti) ≡ some mti
unfolding from_code
from_code-to_code authorization_request = refl
from_code-to_code authorization_response = refl
from_code-to_code financial_request = refl
from_code-to_code financial_response = refl
from_code-to_code reversal_request = refl
from_code-to_code reversal_response = refl
from_code-to_code network_management_request = refl
from_code-to_code network_management_response = refl

take_mti-mti_text :
    (mti : MessageType) (rest : List ℕ)
    → take_mti (mti_text (to_code mti) ++ rest) ≡ ok (to_code mti, rest)
take_mti-mti_text authorization_request rest = refl
take_mti-mti_text authorization_response rest = refl
take_mti-mti_text financial_request rest = refl
take_mti-mti_text financial_response rest = refl
take_mti-mti_text reversal_request rest = refl
take_mti-mti_text reversal_response rest = refl
take_mti-mti_text network_management_request rest = refl
take_mti-mti_text network_management_response rest = refl

from_be_bytes-to_be_bytes : (b : ℕ) → b < 2 ^ 64 → from_be_bytes (to_be_bytes 8 b) ≡ b
unfolding to_be_bytes
from_be_bytes-to_be_bytes b lt =
    ap of_le_bytes (reverse-reverse (to_le_bytes 8 b)) ∙ of_le-to_le 8 b lt

take_bitmap-to_be_bytes :
    (b : ℕ) (rest : List ℕ) → b < 2 ^ 64 → take_bitmap (to_be_bytes 8 b ++ rest) ≡ ok (b, rest)
take_bitmap-to_be_bytes b rest lt =
    rw (read, take_bitmap) (ap (λ n. ok (n, rest)) (from_be_bytes-to_be_bytes b lt))
  where
    read : take_bytes 8 (to_be_bytes 8 b ++ rest) ≡ ok (to_be_bytes 8 b, rest)
    read =
        ap (λ n. take_bytes n (to_be_bytes 8 b ++ rest)) (sym (length-to_be_bytes 8 b))
        ∙ take_bytes-append (to_be_bytes 8 b) rest

secondary_text :
    (secondary : Option ℕ) (rest : List ℕ)
    → IsWord secondary
    → take_secondary (is_present secondary) (secondary_bytes secondary ++ rest)
      ≡ ok (secondary, rest)
secondary_text none rest w = refl
secondary_text (some b) rest w = rw (take_bitmap-to_be_bytes b rest w, take_secondary) refl

-- The secondary fields, with nothing left after them.
secondary_fields :
    (elements : Map (List ℕ)) (secondary : Option ℕ) (acc : Map (List ℕ))
    → AreFields elements (secondary_ids secondary)
    → (bytes : List ℕ) × (acc' : Map (List ℕ)) × (encode_elements elements (secondary_ids secondary)
        ≡ ok bytes)
      × (take_secondary_elements secondary acc bytes ≡ ok (acc', []))
      × ((id : ℕ)
          → lookup id acc'
            ≡ (if elem id (secondary_ids secondary) then lookup id elements else lookup id acc))
unfolding encode_elements
secondary_fields elements none acc a = ([], acc, refl, refl, λ id. refl)
secondary_fields elements (some b) acc a =
    let (bytes, acc', e, t, l) = take_elements-encode_elements elements 128 b 63 66 acc [] a in
    (bytes, acc', e, ap (take_elements 128 b 63 66 acc) (sym (append-nil bytes)) ∙ t, l)

-- The steps of `parse_iso8583`, one after the other.
parse_steps :
    (input r1 r2 r3 r4 r5 : List ℕ) (code primary : ℕ) (mti : MessageType) (secondary : Option ℕ)
    (first all : Map (List ℕ))
    → ltb (length input) 10 ≡ false
    → take_mti input ≡ ok (code, r1)
    → from_code code ≡ some mti
    → take_bitmap r1 ≡ ok (primary, r2)
    → take_secondary (test_bit 63 primary) r2 ≡ ok (secondary, r3)
    → take_elements 64 primary 63 2 [] r3 ≡ ok (first, r4)
    → take_secondary_elements secondary first r4 ≡ ok (all, r5)
    → parse_iso8583 input
      ≡ ok (record {
        mti = mti;
        primary_bitmap = primary;
        secondary_bitmap = secondary;
        elements = all;
      })
unfolding parse_iso8583
parse_steps input r1 r2 r3 r4 r5 code primary mti secondary first all long m c p s f a =
    rw (long, m, c, p, s, f, a, parse_iso8583) refl

long_enough :
    (mti : MessageType) (primary : ℕ) (rest : List ℕ)
    → ltb (length (mti_text (to_code mti) ++ (to_be_bytes 8 primary ++ rest))) 10 ≡ false
long_enough mti primary rest =
    ground (arith, length-append (to_be_bytes 8 primary) rest, length-to_be_bytes 8 primary)

-- The two halves of the fields of a message, written and read.
abbrev Halves : Iso8583Message → Type 0
Halves msg =
    (x : List ℕ) × (y : List ℕ) × (first : Map (List ℕ)) × (all : Map (List ℕ)) × (encode_elements
        msg.elements (all_ids msg.primary_bitmap msg.secondary_bitmap)
      ≡ ok (x ++ y))
    × (take_elements 64 msg.primary_bitmap 63 2 [] (x ++ y) ≡ ok (first, y))
    × (take_secondary_elements msg.secondary_bitmap first y ≡ ok (all, []))
    × ((id : ℕ) → lookup id all ≡ lookup id msg.elements)

-- The lookups of the two halves together.
joined :
    (p q : Bool) (o first all : Option (List ℕ))
    → (elim o [ none ↦ false | some _ ↦ true ]) ≡ (p || q)
    → first ≡ (if p then o else none)
    → all ≡ (if q then o else first)
    → all ≡ o
joined true true o first all k f a = a
joined true false o first all k f a = a ∙ f
joined false true o first all k f a = a
joined false false none first all k f a = a ∙ f
joined false false (some v) first all k f a = ground arith

split_fields : (msg : Iso8583Message) → IsMessage msg → Halves msg
split_fields msg i =
    let primary = ids_of 64 msg.primary_bitmap 63 2 in
    let known : (id : ℕ)
        → contains_key id msg.elements
          ≡ (elem id primary || elem id (secondary_ids msg.secondary_bitmap)) =
      λ id. i.announced id ∙ elem-append id primary (secondary_ids msg.secondary_bitmap) in
    let first_fields = announced_fields msg i primary (λ id e. ground (arith, known id)) in
    let more_fields =
      announced_fields msg i (secondary_ids msg.secondary_bitmap)
        (λ id e. ground (arith, known id)) in
    let (y, none_yet, ey, ty, ly) =
      secondary_fields msg.elements msg.secondary_bitmap [] more_fields in
    let (x, first, ex, tx, lx) =
      take_elements-encode_elements msg.elements 64 msg.primary_bitmap 63 2 [] y first_fields in
    let (y', all, ey', ty', ly') =
      secondary_fields msg.elements msg.secondary_bitmap first more_fields in
    (
      x,
      y,
      first,
      all,
      encode_elements-append msg.elements primary (secondary_ids msg.secondary_bitmap) x y ex ey
          first_fields,
      tx,
      ap (take_secondary_elements msg.secondary_bitmap first) (
            one_result (encode_elements msg.elements (secondary_ids msg.secondary_bitmap)) y y' ey
              ey')
          ∙ ty',
      λ id.
          joined (elem id primary) (elem id (secondary_ids msg.secondary_bitmap))
            (lookup id msg.elements) (lookup id first) (lookup id all) (known id) (lx id) (ly' id),
    )

serialized :
    (msg : Iso8583Message) (fields : List ℕ)
    → encode_elements msg.elements (sort (keys msg.elements)) ≡ ok fields
    → serialize_iso8583 msg
      ≡ ok (
          mti_text (to_code msg.mti)
          ++ (to_be_bytes 8 msg.primary_bitmap ++ (secondary_bytes msg.secondary_bitmap ++ fields)))
unfolding serialize_iso8583
serialized msg fields e = rw (e, serialize_iso8583) refl

-- A message whose bitmaps announce exactly its elements, each of them fitting its field, has bytes,
-- and parsing them gives the message back: its type, its bitmaps and every element.
pub parse_iso8583-serialize_iso8583 :
    (msg : Iso8583Message)
    → IsMessage msg
    → (bytes : List ℕ) × (parsed : Iso8583Message) × (serialize_iso8583 msg ≡ ok bytes)
      × (parse_iso8583 bytes ≡ ok parsed)
      × (parsed.mti ≡ msg.mti)
      × (parsed.primary_bitmap ≡ msg.primary_bitmap)
      × (parsed.secondary_bitmap ≡ msg.secondary_bitmap)
      × ((id : ℕ) → lookup id parsed.elements ≡ lookup id msg.elements)
parse_iso8583-serialize_iso8583 msg i =
    let (x, y, first, all, written, f, a, l) = split_fields msg i in
    (
      mti_text (to_code msg.mti)
          ++ (to_be_bytes 8 msg.primary_bitmap
              ++ (secondary_bytes msg.secondary_bitmap ++ (x ++ y))),
      record {
        mti = msg.mti;
        primary_bitmap = msg.primary_bitmap;
        secondary_bitmap = msg.secondary_bitmap;
        elements = all;
      },
      serialized msg (x ++ y)
          (ap (encode_elements msg.elements) (sort-keys_all_ids msg i) ∙ written),
      parse_steps
          (mti_text (to_code msg.mti)
            ++ (to_be_bytes 8 msg.primary_bitmap
                ++ (secondary_bytes msg.secondary_bitmap ++ (x ++ y))))
          (to_be_bytes 8 msg.primary_bitmap ++ (secondary_bytes msg.secondary_bitmap ++ (x ++ y)))
          (secondary_bytes msg.secondary_bitmap ++ (x ++ y)) (x ++ y) y [] (to_code msg.mti)
          msg.primary_bitmap msg.mti msg.secondary_bitmap first all
          (long_enough msg.mti msg.primary_bitmap
            (secondary_bytes msg.secondary_bitmap ++ (x ++ y)))
          (take_mti-mti_text msg.mti (
            to_be_bytes 8 msg.primary_bitmap ++ (secondary_bytes msg.secondary_bitmap ++ (x ++ y))))
          (from_code-to_code msg.mti)
          (take_bitmap-to_be_bytes msg.primary_bitmap
            (secondary_bytes msg.secondary_bitmap ++ (x ++ y)) i.primary_word)
          (ap (λ b. take_secondary b (secondary_bytes msg.secondary_bitmap ++ (x ++ y))) i.flag
            ∙ secondary_text msg.secondary_bitmap (x ++ y) i.secondary_word)
          f a,
      refl,
      refl,
      refl,
      l,
    )
