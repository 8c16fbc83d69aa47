-- ===== src/Iso/Iso8583/Tests.antt =====
-- A message with an account number of eight digits, a processing code and a secondary field.
use nexus_chain.Base.{ℕ, ◌≡◌, refl, List, [], ◌∷◌, ok, some, arith}
use nexus_chain.Base.Map.{lookup}
use nexus_chain.Iso.Iso8583.{
  Iso8583Message, authorization_request, ll_var, field_encoding, new_message, set_element,
  serialize_iso8583, parse_iso8583, zeros,
}
use nexus_chain.Iso.Iso8583.Fields.{Fits}
use nexus_chain.Iso.Iso8583.Elements.{IsMessage}
use nexus_chain.Iso.Iso8583.Build.{new_message-IsMessage, set_element-IsMessage}
use nexus_chain.Iso.Iso8583.RoundTrip.{parse_iso8583-serialize_iso8583}

abbrev pan : List ℕ
pan = 52 ∷ 49 ∷ 49 ∷ 49 ∷ 49 ∷ 49 ∷ 49 ∷ 49 ∷ []

abbrev with_pan : Iso8583Message
with_pan = set_element 2 pan (new_message authorization_request)

abbrev request : Iso8583Message
request = set_element 99 (zeros 5) with_pan

pan-Fits : Fits 2 pan
unfolding field_encoding
pan-Fits = (ll_var 19, refl, omega arith)

settlement-Fits : Fits 99 (zeros 5)
unfolding field_encoding
settlement-Fits = (ll_var 11, refl, omega arith)

with_pan-IsMessage : IsMessage with_pan
with_pan-IsMessage =
    set_element-IsMessage 2 pan (new_message authorization_request)
      (new_message-IsMessage authorization_request) (omega arith, λ e. omega arith, omega arith)
      pan-Fits

set_element-IsMessage_example : IsMessage (set_element 99 (zeros 5) with_pan)
set_element-IsMessage_example =
    set_element-IsMessage 99 (zeros 5) with_pan with_pan-IsMessage
      (omega arith, λ e. omega arith, omega arith) settlement-Fits

request-IsMessage : IsMessage request
request-IsMessage =
    set_element-IsMessage 99 (zeros 5) with_pan with_pan-IsMessage
      (omega arith, λ e. omega arith, omega arith) settlement-Fits

parse_iso8583-serialize_iso8583_example :
    (bytes : List ℕ) × (parsed : Iso8583Message) × (serialize_iso8583 request ≡ ok bytes)
    × (parse_iso8583 bytes ≡ ok parsed)
    × (parsed.mti ≡ request.mti)
    × (parsed.primary_bitmap ≡ request.primary_bitmap)
    × (parsed.secondary_bitmap ≡ request.secondary_bitmap)
    × ((id : ℕ) → lookup id parsed.elements ≡ lookup id request.elements)
parse_iso8583-serialize_iso8583_example = parse_iso8583-serialize_iso8583 request request-IsMessage

-- Fields 2 and 99, the second by its secondary bitmap.
request_bitmaps :
    (request.primary_bitmap ≡ 0xC000000000000000) × (request.secondary_bitmap ≡ some 0x20000000)
unfolding set_element
request_bitmaps = (refl, refl)
