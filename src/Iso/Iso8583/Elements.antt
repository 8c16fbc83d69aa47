-- ===== src/Iso/Iso8583/Elements.antt =====
-- The fields that the bitmaps of iso8583.rs announce, written and read back in order.
use nexus_chain.Base.{
  ℕ, zero, suc, ◌+◌, ◌-◌, ◌^◌, ◌<◌, ◌≤◌, ◌≡◌, refl, sym, ◌∙◌, ap, Bool, true, false, List, [], ◌∷◌,
  ◌++◌, Option, none, some, Result, ok, inl, inr, arith, if◌then◌else◌, ◌==◌, elem, All, Bool-cases,
  Option-cases, ==→eq, ==-refl,
}
use mathlib.Core.Path.{subst}
use mathlib.Core.List.{append_assoc}
use nexus_chain.Base.Map.{Map, lookup, insert, keys, contains_key, Unique, lookup-insert}
use nexus_chain.Iso.Iso8583.{
  IsoError, Iso8583Message, test_bit, encode_field, take_elements, sort, encode_elements,
}
use nexus_chain.Iso.Iso8583.Bits.{ids_of, elem-ids_of}
use nexus_chain.Iso.Iso8583.Fields.{Fits, decode_field-encode_field}
use nexus_chain.Iso.Iso8583.Sorted.{
  Ascending, Ascending-out, Ascending-unique, elem-sort, elem-keys, sort-keys_Ascending,
  ids_of-Ascending, append-Ascending,
}

-- The ids of the fields that the bitmaps announce: bits 1 and 65 announce a further bitmap.
abbrev pub secondary_ids : Option ℕ → List ℕ
secondary_ids none = []
secondary_ids (some secondary) = ids_of 128 secondary 63 66

abbrev pub all_ids : ℕ → Option ℕ → List ℕ
all_ids primary secondary = ids_of 64 primary 63 2 ++ secondary_ids secondary

abbrev pub is_present : Option ℕ → Bool
is_present none = false
is_present (some _) = true

abbrev pub IsWord : Option ℕ → Type 0
IsWord none = Unit
IsWord (some b) = b < 2 ^ 64

-- The bitmaps announce exactly the elements, and each element fits its field.
pub record IsMessage (msg : Iso8583Message) : Type 0 where
  pub unique : Unique msg.elements
  pub primary_word : msg.primary_bitmap < 2 ^ 64
  pub secondary_word : IsWord msg.secondary_bitmap
  pub flag : test_bit 63 msg.primary_bitmap ≡ is_present msg.secondary_bitmap
  pub announced :
      (id : ℕ)
      → contains_key id msg.elements ≡ elem id (all_ids msg.primary_bitmap msg.secondary_bitmap)
  pub fits : (id : ℕ) (value : List ℕ) → lookup id msg.elements ≡ some value → Fits id value

pub one_result : (r : Result IsoError (List ℕ)) (x y : List ℕ) → r ≡ ok x → r ≡ ok y → x ≡ y
one_result r x y e f = cc

ids_of-set :
    (last bitmap n bit : ℕ)
    → test_bit (last - bit) bitmap ≡ true
    → ids_of last bitmap (suc n) bit ≡ bit ∷ ids_of last bitmap n (bit + 1)
unfolding ids_of
ids_of-set last bitmap n bit set = rw (set, ids_of) refl

ids_of-unset :
    (last bitmap n bit : ℕ)
    → test_bit (last - bit) bitmap ≡ false
    → ids_of last bitmap (suc n) bit ≡ ids_of last bitmap n (bit + 1)
unfolding ids_of
ids_of-unset last bitmap n bit unset = rw (unset, ids_of) refl

module _ (elements : Map (List ℕ)) where
  -- Each of the ids has an element that fits its field.
  abbrev pub AreFields : List ℕ → Type 0
  AreFields ids =
      All (λ id. (value : List ℕ) × (lookup id elements ≡ some value) × Fits id value) ids

  encode_elements-step :
      (id : ℕ) (ids : List ℕ) (value bytes x : List ℕ)
      → lookup id elements ≡ some value
      → encode_field id value ≡ ok bytes
      → encode_elements elements ids ≡ ok x
      → encode_elements elements (id ∷ ids) ≡ ok (bytes ++ x)
  unfolding encode_elements
  encode_elements-step id ids value bytes x there written e =
      rw (there, written, e, encode_elements) refl

  encode_elements-all :
      (ids : List ℕ) → AreFields ids → (x : List ℕ) × (encode_elements elements ids ≡ ok x)
  unfolding encode_elements
  encode_elements-all [] a = ([], refl)
  encode_elements-all (id ∷ ids) a =
      let (value, there, f) = a.0 in
      let (bytes, written, read) = decode_field-encode_field id value [] f in
      let (x, e) = encode_elements-all ids a.1 in
      (bytes ++ x, encode_elements-step id ids value bytes x there written e)

  pub encode_elements-append :
      (ids more : List ℕ) (x y : List ℕ)
      → encode_elements elements ids ≡ ok x
      → encode_elements elements more ≡ ok y
      → AreFields ids
      → encode_elements elements (ids ++ more) ≡ ok (x ++ y)
  unfolding encode_elements
  encode_elements-append [] more x y ex ey a = let none_left : x ≡ [] = cc in rw none_left ey
  encode_elements-append (id ∷ ids) more x y ex ey a =
      let (value, there, f) = a.0 in
      let (bytes, written, read) = decode_field-encode_field id value [] f in
      let (tail, e) = encode_elements-all ids a.1 in
      let split : x ≡ bytes ++ tail =
        one_result (encode_elements elements (id ∷ ids)) x (bytes ++ tail) ex
          (encode_elements-step id ids value bytes tail there written e) in
      encode_elements-step id (ids ++ more) value bytes (tail ++ y) there written
        (encode_elements-append ids more tail y e ey a.1)
      ∙ ap ok (sym (append_assoc bytes tail y) ∙ ap (λ l. l ++ y) (sym split))

  lookup_after :
      (bit id : ℕ) (value : List ℕ) (acc : Map (List ℕ)) (ids : List ℕ)
      → lookup bit elements ≡ some value
      → (if elem id ids then lookup id elements else lookup id (insert bit value acc))
        ≡ (if elem id (bit ∷ ids) then lookup id elements else lookup id acc)
  lookup_after bit id value acc ids there = elim (Bool-cases (id == bit)) [
    | inl same ↦
        ground
          (arith, lookup-insert id bit value acc, ap (λ k. lookup k elements) (==→eq id bit same))
    | inr other ↦ ground (arith, lookup-insert id bit value acc)
  ]

  -- Reading the announced fields of a run of bits.
  pub take_elements-encode_elements :
      (last bitmap n bit : ℕ) (acc : Map (List ℕ)) (rest : List ℕ)
      → AreFields (ids_of last bitmap n bit)
      → (bytes : List ℕ) × (acc' : Map (List ℕ)) × (encode_elements elements
            (ids_of last bitmap n bit)
          ≡ ok bytes)
        × (take_elements last bitmap n bit acc (bytes ++ rest) ≡ ok (acc', rest))
        × ((id : ℕ)
            → lookup id acc'
              ≡ (if elem id (ids_of last bitmap n bit) then lookup id elements else lookup id acc))
  unfolding encode_elements take_elements ids_of
  take_elements-encode_elements last bitmap zero bit acc rest a = ([], acc, refl, refl, λ id. refl)
  take_elements-encode_elements last bitmap (suc n) bit acc rest a =
      elim (Bool-cases (test_bit (last - bit) bitmap)) [
        | inl set ↦
            let a' : AreFields (bit ∷ ids_of last bitmap n (bit + 1)) =
              subst AreFields (ids_of-set last bitmap n bit set) a in
            let (value, there, f) = a'.0 in
            let (x, acc', e, t, l) =
              take_elements-encode_elements last bitmap n (bit + 1) (insert bit value acc) rest
                a'.1 in
            let (bytes, written, read) = decode_field-encode_field bit value (x ++ rest) f in
            (
              bytes ++ x,
              acc',
              rw (set, ids_of)
                  (encode_elements-step bit (ids_of last bitmap n (bit + 1)) value bytes x there
                    written e),
              ap (take_elements last bitmap (suc n) bit acc) (append_assoc bytes x rest)
                  ∙ rw (set, read, take_elements) t,
              λ id.
                  l id
                  ∙ lookup_after bit id value acc (ids_of last bitmap n (bit + 1)) there
                  ∙ ap (λ ids. if elem id ids then lookup id elements else lookup id acc)
                      (sym (ids_of-set last bitmap n bit set)),
            )
        | inr unset ↦
            let (x, acc', e, t, l) =
              take_elements-encode_elements last bitmap n (bit + 1) acc rest
                (subst AreFields (ids_of-unset last bitmap n bit unset) a) in
            (
              x,
              acc',
              rw (unset, ids_of) e,
              rw (unset, take_elements) t,
              λ id. rw (unset, ids_of) (l id),
            )
      ]

primary-low : (primary k : ℕ) → elem k (ids_of 64 primary 63 2) ≡ true → k ≤ 65
primary-low primary k e = ground (arith, elem-ids_of 64 primary 63 2 k)

all_ids-Ascending : (primary : ℕ) (secondary : Option ℕ) → Ascending 1 (all_ids primary secondary)
all_ids-Ascending primary none =
    append-Ascending 1 65 (ids_of 64 primary 63 2) []
      (ids_of-Ascending 1 64 primary 63 2 (omega arith)) (primary-low primary) (omega arith) tt
all_ids-Ascending primary (some secondary) =
    append-Ascending 1 65 (ids_of 64 primary 63 2) (ids_of 128 secondary 63 66)
      (ids_of-Ascending 1 64 primary 63 2 (omega arith)) (primary-low primary) (omega arith)
      (ids_of-Ascending 65 128 secondary 63 66 (omega arith))

-- The sorted keys are the announced ids.
pub sort-keys_all_ids :
    (msg : Iso8583Message)
    → IsMessage msg
    → sort (keys msg.elements) ≡ all_ids msg.primary_bitmap msg.secondary_bitmap
sort-keys_all_ids msg i =
    let ascending = all_ids-Ascending msg.primary_bitmap msg.secondary_bitmap in
    Ascending-unique 0 1 (sort (keys msg.elements))
      (all_ids msg.primary_bitmap msg.secondary_bitmap)
      (sort-keys_Ascending msg.elements i.unique (
        i.announced 0
        ∙ Ascending-out 1 0 (all_ids msg.primary_bitmap msg.secondary_bitmap) ascending
            (omega arith)))
      ascending
      (λ id. elem-sort id (keys msg.elements) ∙ elem-keys id msg.elements ∙ i.announced id)

-- The ids that a message announces have elements that fit.
pub announced_fields :
    (msg : Iso8583Message)
    → IsMessage msg
    → (ids : List ℕ) → ((id : ℕ) → elem id ids ≡ true → contains_key id msg.elements ≡ true)
    → AreFields msg.elements ids
announced_fields msg i [] h = tt
announced_fields msg i (id ∷ ids) h = (
  elim (Option-cases (lookup id msg.elements)) [
    | inl absent ↦ ground (arith, h id (ground (arith, ==-refl id)))
    | inr (value, there) ↦ (value, there, i.fits id value there)
  ],
  announced_fields msg i ids (λ k e. h k (ground arith)),
)
