-- ===== src/Iso/Iso8583/Build.antt =====
-- `set_element` of iso8583.rs keeps the bitmaps and the elements in step.
use nexus_chain.Base.{
  ℕ, zero, suc, ◌+◌, ◌-◌, ◌<◌, ◌≤◌, ◌≢◌, ◌≡◌, refl, sym, ◌∙◌, ap, Bool, true, false, ◌||◌, List, [],
  Option, none, some, inl, inr, arith, ◌==◌, leb, elem, elem-append, Bool-cases, Option-cases,
  ==→eq,
}
use mathlib.Core.Path.{subst}
use nexus_chain.Base.Map.{Map, lookup, insert, contains_key, lookup-insert, insert-Unique}
use nexus_chain.Iso.Iso8583.{
  Iso8583Message, MessageType, authorization_response, test_bit, set_bit, new_message,
  with_secondary, set_element, get_element, copy_element, create_auth_response,
}
use nexus_chain.Iso.Iso8583.Bits.{ids_of, elem-ids_of, test_bit-set_bit, set_bit-bound}
use nexus_chain.Iso.Iso8583.Fields.{Fits}
use nexus_chain.Iso.Iso8583.Elements.{IsMessage, secondary_ids}

-- A bit set for one of the ids announces it and no other.
elem-ids_of_set :
    (last n bit id b k : ℕ)
    → bit ≤ id
    → id < bit + n
    → bit + n ≤ last + 1
    → elem k (ids_of last (set_bit (last - id) b) n bit) ≡ (k == id || elem k (ids_of last b n bit))
elem-ids_of_set last n bit id b k low high top = ground (
  arith,
  elem-ids_of last (set_bit (last - id) b) n bit k,
  elem-ids_of last b n bit k,
  test_bit-set_bit (last - k) (last - id) b,
)

-- A bit set for an id below them announces none.
elem-ids_of_below :
    (last n bit id b k : ℕ)
    → id < bit
    → bit ≤ last
    → bit + n ≤ last + 1
    → elem k (ids_of last (set_bit (last - id) b) n bit) ≡ elem k (ids_of last b n bit)
elem-ids_of_below last n bit id b k low high top = ground (
  arith,
  elem-ids_of last (set_bit (last - id) b) n bit k,
  elem-ids_of last b n bit k,
  test_bit-set_bit (last - k) (last - id) b,
)

test_bit-zero : (k : ℕ) → test_bit k 0 ≡ false
test_bit-zero zero = refl
test_bit-zero (suc k) = test_bit-zero k

elem-ids_of_zero : (last n bit k : ℕ) → elem k (ids_of last 0 n bit) ≡ false
elem-ids_of_zero last n bit k = ground (arith, elem-ids_of last 0 n bit k, test_bit-zero (last - k))

contains_key-insert :
    {V : Type 0} (k j : ℕ) (v : V) (m : Map V)
    → contains_key k (insert j v m) ≡ (k == j || contains_key k m)
contains_key-insert k j v m = ground (arith, lookup-insert k j v m)

Fits-insert :
    (id : ℕ) (value : List ℕ) (m : Map (List ℕ))
    → Fits id value
    → ((k : ℕ) (w : List ℕ) → lookup k m ≡ some w → Fits k w)
    → (k : ℕ) (w : List ℕ) → lookup k (insert id value m) ≡ some w
    → Fits k w
Fits-insert id value m new old k w there = elim (Bool-cases (k == id)) [
  | inl same ↦ subst (λ j. Fits j w) (sym (==→eq k id same)) (subst (Fits id) (value_eq same) new)
  | inr other ↦ old k w (cc (lookup-insert k id value m, other, there))
]
  where
    value_eq : (k == id) ≡ true → value ≡ w
    value_eq same = cc (same, there)

test_bit-other : (j k b : ℕ) → j ≢ k → test_bit j (set_bit k b) ≡ test_bit j b
test_bit-other j k b h = ground (arith, test_bit-set_bit j k b)

test_bit-same : (k b : ℕ) → test_bit k (set_bit k b) ≡ true
test_bit-same k b = ground (arith, test_bit-set_bit k k b)

or_assoc : (p q r : Bool) → (p || (q || r)) ≡ ((p || q) || r)
or_assoc true q r = refl
or_assoc false q r = refl

or_middle : (p q r : Bool) → (p || (q || r)) ≡ (q || (p || r))
or_middle true true r = refl
or_middle true false r = refl
or_middle false q r = refl

announce :
    (k id : ℕ) (value : List ℕ) (m : Map (List ℕ)) {b : Bool}
    → contains_key k m ≡ b
    → contains_key k (insert id value m) ≡ (k == id || b)
announce k id value m e = contains_key-insert k id value m ∙ ap (λ b. k == id || b) e

primary-IsMessage :
    (id : ℕ) (value : List ℕ) (msg : Iso8583Message)
    → IsMessage msg
    → 2 ≤ id
    → id ≤ 64
    → Fits id value
    → IsMessage (record msg {
      primary_bitmap = set_bit (64 - id) msg.primary_bitmap;
      elements = insert id value msg.elements;
    })
primary-IsMessage id value msg i low high f = record {
  unique = insert-Unique id value msg.elements i.unique;
  primary_word = set_bit-bound 64 (64 - id) msg.primary_bitmap (omega arith) i.primary_word;
  secondary_word = i.secondary_word;
  flag = test_bit-other 63 (64 - id) msg.primary_bitmap (λ e. omega arith) ∙ i.flag;
  announced = λ k.
      announce k id value msg.elements (i.announced k)
      ∙ ap (λ b. k == id || b)
          (elem-append k (ids_of 64 msg.primary_bitmap 63 2) (secondary_ids msg.secondary_bitmap))
      ∙ or_assoc (k == id) (elem k (ids_of 64 msg.primary_bitmap 63 2))
          (elem k (secondary_ids msg.secondary_bitmap))
      ∙ ap (λ b. b || elem k (secondary_ids msg.secondary_bitmap))
          (sym (elem-ids_of_set 64 63 2 id msg.primary_bitmap k low (omega arith) (omega arith)))
      ∙ sym (
          elem-append k (ids_of 64 (set_bit (64 - id) msg.primary_bitmap) 63 2)
            (secondary_ids msg.secondary_bitmap));
  fits = Fits-insert id value msg.elements f i.fits;
}

abbrev message : MessageType → ℕ → Option ℕ → Map (List ℕ) → Iso8583Message
message mti primary secondary elements = record {
  mti = mti;
  primary_bitmap = primary;
  secondary_bitmap = secondary;
  elements = elements;
}

-- A new, empty secondary bitmap announces what was announced.
opened-IsMessage :
    (mti : MessageType) (primary : ℕ) (elements : Map (List ℕ))
    → IsMessage (message mti primary none elements)
    → IsMessage (message mti (set_bit 63 primary) (some 0) elements)
opened-IsMessage mti primary elements i = record {
  unique = i.unique;
  primary_word = set_bit-bound 64 63 primary (omega arith) i.primary_word;
  secondary_word = omega arith;
  flag = test_bit-same 63 primary;
  announced = λ k.
      i.announced k
      ∙ elem-append k (ids_of 64 primary 63 2) []
      ∙ ap (λ b. b || false)
          (sym (elem-ids_of_below 64 63 2 1 primary k (omega arith) (omega arith) (omega arith)))
      ∙ ap (λ b. elem k (ids_of 64 (set_bit 63 primary) 63 2) || b)
          (sym (elem-ids_of_zero 128 63 66 k))
      ∙ sym (elem-append k (ids_of 64 (set_bit 63 primary) 63 2) (ids_of 128 0 63 66));
  fits = i.fits;
}

secondary-IsMessage :
    (id : ℕ) (value : List ℕ) (mti : MessageType) (primary b : ℕ) (elements : Map (List ℕ))
    → IsMessage (message mti primary (some b) elements)
    → 66 ≤ id
    → id ≤ 128
    → Fits id value
    → IsMessage (message mti primary (some (set_bit (128 - id) b)) (insert id value elements))
secondary-IsMessage id value mti primary b elements i low high f = record {
  unique = insert-Unique id value elements i.unique;
  primary_word = i.primary_word;
  secondary_word = set_bit-bound 64 (128 - id) b (omega arith) i.secondary_word;
  flag = i.flag;
  announced = λ k.
      announce k id value elements (i.announced k)
      ∙ ap (λ x. k == id || x) (elem-append k (ids_of 64 primary 63 2) (ids_of 128 b 63 66))
      ∙ or_middle (k == id) (elem k (ids_of 64 primary 63 2)) (elem k (ids_of 128 b 63 66))
      ∙ ap (λ x. elem k (ids_of 64 primary 63 2) || x)
          (sym (elem-ids_of_set 128 63 66 id b k low (omega arith) (omega arith)))
      ∙ sym (elem-append k (ids_of 64 primary 63 2) (ids_of 128 (set_bit (128 - id) b) 63 66));
  fits = Fits-insert id value elements f i.fits;
}

-- Setting a field other than the bitmap bits 1 and 65, to a value that fits it, keeps a message in
-- which the bitmaps announce exactly the elements.
pub set_element-IsMessage :
    (id : ℕ) (value : List ℕ) (msg : Iso8583Message)
    → IsMessage msg
    → (2 ≤ id) × (id ≢ 65) × (id ≤ 128)
    → Fits id value
    → IsMessage (set_element id value msg)
unfolding set_element
set_element-IsMessage id value msg i (low, other, high) f = elim (Bool-cases (leb id 64)) [
  | inl primary ↦ rw primary (primary-IsMessage id value msg i low (ground arith) f)
  | inr secondary ↦ rw secondary (with msg.secondary_bitmap i (ground arith))
]
  where
    with :
        (o : Option ℕ)
        → IsMessage (message msg.mti msg.primary_bitmap o msg.elements)
        → 66 ≤ id
        → IsMessage (
            message msg.mti
              (with_secondary (record msg { secondary_bitmap = o })).0
              (some (set_bit (128 - id) (with_secondary (record msg { secondary_bitmap = o })).1))
              (insert id value msg.elements))
    with none i above =
        secondary-IsMessage id value msg.mti (set_bit 63 msg.primary_bitmap) 0 msg.elements
          (opened-IsMessage msg.mti msg.primary_bitmap msg.elements i) above high f
    with (some b) i above =
        secondary-IsMessage id value msg.mti msg.primary_bitmap b msg.elements i above high f

pub new_message-IsMessage : (mti : MessageType) → IsMessage (new_message mti)
new_message-IsMessage mti = record {
  unique = tt;
  primary_word = omega arith;
  secondary_word = tt;
  flag = refl;
  announced = λ k.
      sym (elem-append k (ids_of 64 0 63 2) [] ∙ ap (λ b. b || false) (elem-ids_of_zero 64 63 2 k));
  fits = λ k w e. cc;
}

copy_element-IsMessage :
    (id : ℕ) (request msg : Iso8583Message)
    → IsMessage request
    → IsMessage msg
    → (2 ≤ id) × (id ≢ 65) × (id ≤ 128)
    → IsMessage (copy_element id request msg)
copy_element-IsMessage id request msg r i range = elim (Option-cases (get_element id request)) [
  | inl absent ↦ rw (absent, copy_element) i
  | inr (value, there) ↦
      rw (there, copy_element) (set_element-IsMessage id value msg i range (r.fits id value there))
]

-- The response to a message whose bitmaps announce exactly its elements is such a message, when the
-- codes fit fields 38 and 39.
pub create_auth_response-IsMessage :
    (request : Iso8583Message) (response_code auth_code : List ℕ)
    → IsMessage request
    → Fits 39 response_code
    → Fits 38 auth_code
    → IsMessage (create_auth_response request response_code auth_code)
unfolding create_auth_response
create_auth_response-IsMessage request response_code auth_code r fr fa =
    let m0 = new_message authorization_response in
    let m2 = copy_element 2 request m0 in
    let m4 = copy_element 4 request m2 in
    let m11 = copy_element 11 request m4 in
    let i2 =
      copy_element-IsMessage 2 request m0 r (new_message-IsMessage authorization_response)
        (omega arith, λ e. omega arith, omega arith) in
    let i4 =
      copy_element-IsMessage 4 request m2 r i2 (omega arith, λ e. omega arith, omega arith) in
    let i11 =
      copy_element-IsMessage 11 request m4 r i4 (omega arith, λ e. omega arith, omega arith) in
    set_element-IsMessage 39 response_code (set_element 38 auth_code m11)
      (set_element-IsMessage 38 auth_code m11 i11 (omega arith, λ e. omega arith, omega arith) fa)
      (omega arith, λ e. omega arith, omega arith) fr
