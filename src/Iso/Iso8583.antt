-- ===== src/Iso/Iso8583.antt =====
-- Card messages of crates/nexus-iso/src/iso8583.rs. Bytes are numbers below 256, text is its bytes,
-- and where the source moves `pos` through the data, the model passes on the bytes that are left.
pub mod Bits
pub mod Fields
pub mod Sorted
pub mod Elements
pub mod RoundTrip
pub mod Build
mod Tests
use nexus_chain.Base.{
  ℕ, zero, suc, ◌+◌, ◌-◌, ◌*◌, ◌/◌, ◌%◌, Bool, true, false, not, ◌&&◌, ◌||◌, List, [], ◌∷◌, ◌++◌,
  reverse, Option, none, some, Result, ok, err, ok_or, ◌>>=◌, if◌then◌else◌, ◌==◌, ltb, leb, length,
  take, drop, get_elem?, min, to_be_bytes, of_le_bytes,
}
use nexus_chain.Base.Map.{Map, lookup, insert, keys}

-- `IsoError`, without the texts.
pub data IsoError : Type 0 where
  invalid_format : IsoError
  unknown_message_type : ℕ → IsoError

pub data MessageType : Type 0 where
  authorization_request authorization_response financial_request financial_response : MessageType
  reversal_request reversal_response network_management_request : MessageType
  network_management_response : MessageType

unfoldable pub from_code : ℕ → Option MessageType
from_code code =
    if code == 0x0100
    then some authorization_request
    else if code == 0x0110
    then some authorization_response
    else if code == 0x0200
    then some financial_request
    else if code == 0x0210
    then some financial_response
    else if code == 0x0400
    then some reversal_request
    else if code == 0x0410
    then some reversal_response
    else if code == 0x0800
    then some network_management_request
    else if code == 0x0810
    then some network_management_response
    else none

abbrev pub to_code : MessageType → ℕ
to_code authorization_request = 0x0100
to_code authorization_response = 0x0110
to_code financial_request = 0x0200
to_code financial_response = 0x0210
to_code reversal_request = 0x0400
to_code reversal_response = 0x0410
to_code network_management_request = 0x0800
to_code network_management_response = 0x0810

-- `(b >> k) & 1 == 1`
abbrev pub test_bit : ℕ → ℕ → Bool
test_bit zero b = b % 2 == 1
test_bit (suc k) b = test_bit k (b / 2)

-- `b | (1 << k)`
abbrev pub set_bit : ℕ → ℕ → ℕ
set_bit zero b = if b % 2 == 1 then b else b + 1
set_bit (suc k) b = b % 2 + 2 * set_bit k (b / 2)

pub record Iso8583Message : Type 0 where
  pub mti : MessageType
  pub primary_bitmap : ℕ
  pub secondary_bitmap : Option ℕ
  pub elements : Map (List ℕ)

abbrev pub new_message : MessageType → Iso8583Message
new_message mti = record { mti = mti; primary_bitmap = 0; secondary_bitmap = none; elements = [] }

-- The secondary bitmap as `set_element` finds it or makes it, and the primary one then.
abbrev pub with_secondary : Iso8583Message → ℕ × ℕ
with_secondary msg = elim msg.secondary_bitmap [
  | none ↦ (set_bit 63 msg.primary_bitmap, 0)
  | some secondary ↦ (msg.primary_bitmap, secondary)
]

-- For ids from 1 to 128: the shifts by more than 63 are out of the model.
unfoldable pub set_element : ℕ → List ℕ → Iso8583Message → Iso8583Message
set_element id value msg =
    let (primary, secondary) = with_secondary msg in
    if leb id 64
    then record msg {
      primary_bitmap = set_bit (64 - id) msg.primary_bitmap;
      elements = insert id value msg.elements;
    }
    else record msg {
      primary_bitmap = primary;
      secondary_bitmap = some (set_bit (128 - id) secondary);
      elements = insert id value msg.elements;
    }

abbrev pub get_element : ℕ → Iso8583Message → Option (List ℕ)
get_element id msg = lookup id msg.elements

pub data FieldEncoding : Type 0 where
  fixed ll_var lll_var : ℕ → FieldEncoding

-- The runs of equal encodings from field 1 to field 128.
abbrev pub field_runs : List (ℕ × FieldEncoding)
field_runs =
    (1, fixed 8)
    ∷ (1, ll_var 19)
    ∷ (1, fixed 6)
    ∷ (3, fixed 12)
    ∷ (1, fixed 10)
    ∷ (3, fixed 8)
    ∷ (2, fixed 6)
    ∷ (6, fixed 4)
    ∷ (6, fixed 3)
    ∷ (2, fixed 2)
    ∷ (1, fixed 1)
    ∷ (4, fixed 9)
    ∷ (2, ll_var 11)
    ∷ (1, ll_var 28)
    ∷ (1, ll_var 37)
    ∷ (1, lll_var 104)
    ∷ (1, fixed 12)
    ∷ (1, fixed 6)
    ∷ (1, fixed 2)
    ∷ (1, fixed 3)
    ∷ (1, fixed 8)
    ∷ (1, fixed 15)
    ∷ (1, fixed 40)
    ∷ (1, ll_var 25)
    ∷ (1, ll_var 76)
    ∷ (3, lll_var 999)
    ∷ (3, fixed 3)
    ∷ (1, fixed 8)
    ∷ (1, fixed 16)
    ∷ (1, lll_var 120)
    ∷ (9, lll_var 999)
    ∷ (2, fixed 8)
    ∷ (1, fixed 1)
    ∷ (1, fixed 2)
    ∷ (23, fixed 10)
    ∷ (1, fixed 1)
    ∷ (4, fixed 2)
    ∷ (1, fixed 8)
    ∷ (1, fixed 17)
    ∷ (1, fixed 25)
    ∷ (2, ll_var 11)
    ∷ (1, ll_var 17)
    ∷ (2, ll_var 28)
    ∷ (1, lll_var 100)
    ∷ (23, lll_var 999)
    ∷ (1, fixed 8)
    ∷ []

-- The encoding of the field `i + 1`.
abbrev pub encoding_at : ℕ → List (ℕ × FieldEncoding) → Option FieldEncoding
encoding_at i [] = none
encoding_at i ((n, e) ∷ runs) = if ltb i n then some e else encoding_at (i - n) runs

unfoldable pub field_encoding : ℕ → Option FieldEncoding
field_encoding zero = none
field_encoding (suc i) = encoding_at i field_runs

-- `vec![b' '; len]` with the bytes of `value` copied over it.
abbrev pub spaces : ℕ → List ℕ
spaces zero = []
spaces (suc n) = 32 ∷ spaces n

-- `{:02}` and `{:03}`, for the lengths below 100 and 1000 that the maxima leave.
abbrev pub decimal2 : ℕ → List ℕ
decimal2 n = (48 + n / 10 % 10) ∷ (48 + n % 10) ∷ []

abbrev pub decimal3 : ℕ → List ℕ
decimal3 n = (48 + n / 100 % 10) ∷ decimal2 n

abbrev pub encode_as : FieldEncoding → List ℕ → Result IsoError (List ℕ)
encode_as (fixed len) value = ok (take len value ++ spaces (len - length value))
encode_as (ll_var max) value =
    if ltb max (length value) then err invalid_format else ok (decimal2 (length value) ++ value)
encode_as (lll_var max) value =
    if ltb max (length value) then err invalid_format else ok (decimal3 (length value) ++ value)

unfoldable pub encode_field : ℕ → List ℕ → Result IsoError (List ℕ)
encode_field id value =
    ok_or (field_encoding id) invalid_format >>= λ encoding. encode_as encoding value

abbrev pub is_ascii_digit : ℕ → Bool
is_ascii_digit b = leb 48 b && leb b 57

-- The digits of `usize::from_str`, after the digits of `n`.
abbrev pub decimal_digits : List ℕ → ℕ → Option ℕ
decimal_digits [] n = some n
decimal_digits (b ∷ bs) n = if is_ascii_digit b then decimal_digits bs (n * 10 + (b - 48)) else none

-- `usize::from_str`, which takes a leading `+` and no empty text. Bytes that are not UTF-8 hold no
-- digits, so the error of `from_utf8` is the same.
abbrev pub parse_usize : List ℕ → Option ℕ
parse_usize [] = none
parse_usize (b ∷ []) = decimal_digits (b ∷ []) 0
parse_usize (b ∷ c ∷ bs) =
    if b == 43 then decimal_digits (c ∷ bs) 0 else decimal_digits (b ∷ c ∷ bs) 0

-- The first `n` bytes and what is left, when there are that many.
abbrev pub take_bytes : ℕ → List ℕ → Result IsoError (List ℕ × List ℕ)
take_bytes n input =
    if ltb (length input) n then err invalid_format else ok (take n input, drop n input)

-- A length of `n` digits, then that many bytes.
abbrev pub take_prefixed : ℕ → List ℕ → Result IsoError (List ℕ × List ℕ)
take_prefixed n input = take_bytes n input >>= λ (prefix, rest).
    ok_or (parse_usize prefix) invalid_format >>= λ len. take_bytes len rest

abbrev pub decode_as : FieldEncoding → List ℕ → Result IsoError (List ℕ × List ℕ)
decode_as (fixed len) input = take_bytes len input
decode_as (ll_var _) input = take_prefixed 2 input
decode_as (lll_var _) input = take_prefixed 3 input

unfoldable pub decode_field : ℕ → List ℕ → Result IsoError (List ℕ × List ℕ)
decode_field id input =
    ok_or (field_encoding id) invalid_format >>= λ encoding. decode_as encoding input

abbrev pub hex_value : ℕ → Option ℕ
hex_value b =
    if is_ascii_digit b
    then some (b - 48)
    else if leb 65 b && leb b 70
    then some (b - 55)
    else if leb 97 b && leb b 102
    then some (b - 87)
    else none

-- `u16::from_str_radix(_, 16)` of four bytes, the first a digit.
abbrev pub hex_digits : List ℕ → ℕ → Option ℕ
hex_digits [] n = some n
hex_digits (b ∷ bs) n = elim (hex_value b) [ none ↦ none | some d ↦ hex_digits bs (n * 16 + d) ]

abbrev pub starts_with_digit : List ℕ → Bool
starts_with_digit [] = false
starts_with_digit (b ∷ _) = is_ascii_digit b

abbrev pub from_be_bytes : List ℕ → ℕ
from_be_bytes bs = of_le_bytes (reverse bs)

-- The message type indicator, as text or as two bytes.
abbrev pub take_mti : List ℕ → Result IsoError (ℕ × List ℕ)
take_mti input =
    if starts_with_digit input
    then (ok_or (hex_digits (take 4 input) 0) invalid_format >>= λ code. ok (code, drop 4 input))
    else ok (from_be_bytes (take 2 input), drop 2 input)

abbrev pub take_bitmap : List ℕ → Result IsoError (ℕ × List ℕ)
take_bitmap input = take_bytes 8 input >>= λ (bytes, rest). ok (from_be_bytes bytes, rest)

abbrev pub take_secondary : Bool → List ℕ → Result IsoError (Option ℕ × List ℕ)
take_secondary false input = ok (none, input)
take_secondary true input = take_bitmap input >>= λ (secondary, rest). ok (some secondary, rest)

-- The loop over `n` bits from `bit` up, `last` being the lowest one of the bitmap.
unfoldable pub take_elements :
    ℕ → ℕ → ℕ → ℕ → Map (List ℕ) → List ℕ → Result IsoError (Map (List ℕ) × List ℕ)
take_elements last bitmap zero bit elements input = ok (elements, input)
take_elements last bitmap (suc n) bit elements input =
    let skip = take_elements last bitmap n (bit + 1) elements input in
    let next = decode_field bit input >>= λ (value, rest).
    take_elements last bitmap n (bit + 1) (insert bit value elements) rest in
    if test_bit (last - bit) bitmap then next else skip

abbrev pub take_secondary_elements :
    Option ℕ → Map (List ℕ) → List ℕ → Result IsoError (Map (List ℕ) × List ℕ)
take_secondary_elements none elements input = ok (elements, input)
take_secondary_elements (some secondary) elements input =
    take_elements 128 secondary 63 66 elements input

unfoldable pub parse_iso8583 : List ℕ → Result IsoError Iso8583Message
parse_iso8583 input =
    let parsed = take_mti input >>= λ (code, after_mti).
    ok_or (from_code code) (unknown_message_type code) >>= λ mti.
    take_bitmap after_mti >>= λ (primary, after_primary).
    take_secondary (test_bit 63 primary) after_primary >>= λ (secondary, after_bitmaps).
    take_elements 64 primary 63 2 [] after_bitmaps >>= λ (elements, rest).
    take_secondary_elements secondary elements rest >>= λ (all, _). ok (record {
      mti = mti;
      primary_bitmap = primary;
      secondary_bitmap = secondary;
      elements = all;
    }) in
    if ltb (length input) 10 then err invalid_format else parsed

-- `{:04X}` of a u16.
abbrev pub hex_digit : ℕ → ℕ
hex_digit n = if ltb n 10 then 48 + n else 55 + n

abbrev pub mti_text : ℕ → List ℕ
mti_text code =
    hex_digit (code / 4096 % 16)
    ∷ hex_digit (code / 256 % 16)
    ∷ hex_digit (code / 16 % 16)
    ∷ hex_digit (code % 16)
    ∷ []

-- `sort_unstable`, of keys that all differ.
abbrev pub insert_sorted : ℕ → List ℕ → List ℕ
insert_sorted x [] = x ∷ []
insert_sorted x (y ∷ ys) = if leb x y then x ∷ y ∷ ys else y ∷ insert_sorted x ys

abbrev pub sort : List ℕ → List ℕ
sort [] = []
sort (x ∷ xs) = insert_sorted x (sort xs)

-- The loop over the sorted ids.
unfoldable pub encode_elements : Map (List ℕ) → List ℕ → Result IsoError (List ℕ)
encode_elements elements [] = ok []
encode_elements elements (id ∷ ids) =
    let rest = encode_elements elements ids in
    elim (lookup id elements) [
      | none ↦ rest
      | some value ↦ encode_field id value >>= λ encoded. rest >>= λ more. ok (encoded ++ more)
    ]

abbrev pub secondary_bytes : Option ℕ → List ℕ
secondary_bytes none = []
secondary_bytes (some secondary) = to_be_bytes 8 secondary

unfoldable pub serialize_iso8583 : Iso8583Message → Result IsoError (List ℕ)
serialize_iso8583 msg = encode_elements msg.elements (sort (keys msg.elements)) >>= λ fields. ok (
    mti_text (to_code msg.mti)
    ++ (to_be_bytes 8 msg.primary_bitmap ++ (secondary_bytes msg.secondary_bitmap ++ fields)))

-- Decimal digits; 20 of them hold every u64.
abbrev pub digits : ℕ → ℕ → List ℕ
digits zero n = []
digits (suc fuel) n =
    let more = digits fuel (n / 10) in
    if ltb n 10 then (48 + n) ∷ [] else more ++ ((48 + n % 10) ∷ [])

abbrev pub zeros : ℕ → List ℕ
zeros zero = []
zeros (suc n) = 48 ∷ zeros n

-- `{:012}`
abbrev pub decimal12 : ℕ → List ℕ
decimal12 n = zeros (12 - length (digits 20 n)) ++ digits 20 n

-- The texts are their bytes: "000000", "000001" and "012" are written out.
unfoldable pub create_auth_request : List ℕ → ℕ → List ℕ → List ℕ → List ℕ → Iso8583Message
create_auth_request pan amount currency terminal_id merchant_id = set_element 49 currency (
    set_element 42 merchant_id (
      set_element 41 terminal_id (
        set_element 22 (48 ∷ 49 ∷ 50 ∷ []) (
          set_element 11 (zeros 5 ++ (49 ∷ [])) (
            set_element 4 (decimal12 amount)
              (set_element 3 (zeros 6) (set_element 2 pan (new_message authorization_request))))))))

-- `if let Some(value) = request.get_element(id) { msg.set_element(id, value.clone()) }`
abbrev pub copy_element : ℕ → Iso8583Message → Iso8583Message → Iso8583Message
copy_element id request msg = elim (get_element id request) [
  | none ↦ msg
  | some value ↦ set_element id value msg
]

unfoldable pub create_auth_response : Iso8583Message → List ℕ → List ℕ → Iso8583Message
create_auth_response request response_code auth_code = set_element 39 response_code (
    set_element 38 auth_code (
      copy_element 11 request
        (copy_element 4 request (copy_element 2 request (new_message authorization_response)))))
