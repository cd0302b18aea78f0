-- ===== src/Count/Location/Decoding.antt =====
-- Decoding the attributes of a resource: fuel that is enough, and what an encoding is read as.
use jvm_vendors.Base.{
  ℕ, zero, suc, ◌+◌, ◌-◌, ◌*◌, ◌/◌, ◌%◌, ◌^◌, ◌≡◌, ◌<◌, ◌≤◌, refl, ap, false, List, [], ◌∷◌, ◌++◌,
  length, length-append, All, ◌==◌, arith, Bool-cases, inl, inr,
}
use mathlib.Core.List.{append_assoc}
use jvm_vendors.Base.Int.{ℤ, pos, ◌+ℤ◌, ◌*ℤ◌, wrap32}
use jvm_vendors.Base.Result.{ok, ok-injective, bind_congr}
use jvm_vendors.Count.Reader.{Bytes}
use jvm_vendors.Count.Location.{
  Location, empty, set_attribute, push_byte, read_value, read_attributes, decode,
}

-- The seven kinds of attributes, the number of each, and the field that it sets.
pub data Kind : Type 0 where
  module_at parent_at base_at extension_at content_at compressed uncompressed : Kind

abbrev pub number : Kind → ℕ
number module_at = 1
number parent_at = 2
number base_at = 3
number extension_at = 4
number content_at = 5
number compressed = 6
number uncompressed = 7

abbrev pub assign : Kind → ℤ → Location → Location
assign module_at v o = record o { module_offset = v }
assign parent_at v o = record o { parent_offset = v }
assign base_at v o = record o { base_offset = v }
assign extension_at v o = record o { extension_offset = v }
assign content_at v o = record o { content_offset = v }
assign compressed v o = record o { compressed_size = v }
assign uncompressed v o = record o { uncompressed_size = v }

set_attribute-assign :
    (k : Kind) (v : ℤ) (o : Location) → set_attribute (number k) v o ≡ ok (assign k v o)
unfolding set_attribute
set_attribute-assign module_at v o = refl
set_attribute-assign parent_at v o = refl
set_attribute-assign base_at v o = refl
set_attribute-assign extension_at v o = refl
set_attribute-assign content_at v o = refl
set_attribute-assign compressed v o = refl
set_attribute-assign uncompressed v o = refl

-- The number that bytes spell, the highest first, behind `v`.
abbrev pub big_endian : ℕ → Bytes → ℕ
big_endian v [] = v
big_endian v (b ∷ bs) = big_endian (v * 256 + b) bs

le-big_endian : (v : ℕ) (bs : Bytes) → v ≤ big_endian v bs
le-big_endian v [] = omega arith
le-big_endian v (b ∷ bs) = omega (arith, le-big_endian (v * 256 + b) bs)

push_byte-pos : (v b : ℕ) → v * 256 + b < 2 ^ 31 → push_byte (pos v) b ≡ pos (v * 256 + b)
unfolding wrap32 ◌+ℤ◌ ◌*ℤ◌
push_byte-pos v b h = ground arith

-- A value below 2^31 is read attrs the number that its bytes spell.
read_value-big_endian :
    (bs rest : Bytes) (v : ℕ)
    → big_endian v bs < 2 ^ 31
    → read_value (length bs) (pos v) (bs ++ rest) ≡ ok (pos (big_endian v bs), rest)
unfolding read_value
read_value-big_endian [] rest v h = refl
read_value-big_endian (b ∷ bs) rest v h =
    rw (push_byte-pos v b (omega (arith, le-big_endian (v * 256 + b) bs)))
      (read_value-big_endian bs rest (v * 256 + b) h)

-- An attribute with one to eight bytes of value, and its encoding.
pub record Attribute : Type 0 where
  pub kind : Kind
  pub bytes : Bytes

pub record IsAttribute (a : Attribute) : Type 0 where
  pub some_byte : 1 ≤ length a.bytes
  pub few_bytes : length a.bytes ≤ 8
  pub fits : big_endian 0 a.bytes < 2 ^ 31

abbrev pub encode : List Attribute → Bytes
encode [] = 0 ∷ []
encode (a ∷ attrs) = (number a.kind * 8 + (length a.bytes - 1)) ∷ (a.bytes ++ encode attrs)

-- The location that attributes describe: a later attribute replaces an earlier one of its kind.
abbrev pub describe : Location → List Attribute → Location
describe o [] = o
describe o (a ∷ attrs) = describe (assign a.kind (pos (big_endian 0 a.bytes)) o) attrs

head_kind : (k : Kind) (n : ℕ) → 1 ≤ n → n ≤ 8 → (number k * 8 + (n - 1)) / 8 ≡ number k
head_kind k n h e = omega arith

head_length : (k : Kind) (n : ℕ) → 1 ≤ n → n ≤ 8 → (number k * 8 + (n - 1)) % 8 + 1 ≡ n
head_length k n h e = omega arith

number-ne-zero : (k : Kind) → (number k == 0) ≡ false
number-ne-zero module_at = refl
number-ne-zero parent_at = refl
number-ne-zero base_at = refl
number-ne-zero extension_at = refl
number-ne-zero content_at = refl
number-ne-zero compressed = refl
number-ne-zero uncompressed = refl

read_attributes-encode :
    (rounds : ℕ) (attrs : List Attribute) (rest : Bytes) (o : Location)
    → length attrs < rounds
    → All IsAttribute attrs
    → read_attributes rounds o (encode attrs ++ rest) ≡ ok (describe o attrs)
unfolding read_attributes
read_attributes-encode zero attrs rest o h v = absurd (omega arith)
read_attributes-encode (suc k) [] rest o h v = refl
read_attributes-encode (suc k) (a ∷ attrs) rest o h (va, vattrs) =
    let n = length a.bytes in
    rw
      (
        head_kind a.kind n va.some_byte va.few_bytes,
        head_length a.kind n va.some_byte va.few_bytes,
        number-ne-zero a.kind,
        append_assoc a.bytes (encode attrs) rest,
        read_value-big_endian a.bytes (encode attrs ++ rest) 0 va.fits,
        set_attribute-assign,
      )
      (read_attributes-encode k attrs rest (assign a.kind (pos (big_endian 0 a.bytes)) o)
        (omega arith) vattrs)

length-encode : (attrs : List Attribute) → length attrs < length (encode attrs)
length-encode [] = omega arith
length-encode (a ∷ attrs) = omega (arith, length-encode attrs, length-append a.bytes (encode attrs))

-- Decoding the encoding of attributes, each of one to eight bytes with a value below 2^31, gives the location that they describe, whatever follows.
pub decode-encode :
    (attrs : List Attribute) (rest : Bytes)
    → All IsAttribute attrs
    → decode (encode attrs ++ rest) ≡ ok (describe empty attrs)
unfolding decode
decode-encode attrs rest v =
    read_attributes-encode _ attrs rest empty
      (omega (arith, length-encode attrs, length-append (encode attrs) rest)) v

read_value_shrinks :
    (n : ℕ) (v : ℤ) (r : Bytes) {p : ℤ × Bytes} → read_value n v r ≡ ok p → length p.1 ≤ length r
unfolding read_value
read_value_shrinks zero v r h = omega (arith, ap (λ (q : ℤ × Bytes). length q.1) (ok-injective h))
read_value_shrinks (suc n) v [] h = cc
read_value_shrinks (suc n) v (raw ∷ r) {p} h =
    omega (arith, read_value_shrinks n (push_byte v raw) r {p = p} h)

-- The loop over the attributes ends: with more rounds than bytes the number of rounds is irrelevant.
pub read_attributes_enough :
    (j k : ℕ) (o : Location) (r : Bytes)
    → length r < j
    → length r < k
    → read_attributes j o r ≡ read_attributes k o r
unfolding read_attributes
read_attributes_enough zero k o r h g = absurd (omega arith)
read_attributes_enough (suc j) zero o r h g = absurd (omega arith)
read_attributes_enough (suc j) (suc k) o [] h g = refl
read_attributes_enough (suc j) (suc k) o (raw ∷ r) h g = elim (Bool-cases (raw / 8 == 0)) [
  | inl e ↦ rw e
  | inr e ↦ rw e (
      bind_congr (read_value (raw % 8 + 1) (pos 0) r) _ _ λ p read.
        bind_congr (set_attribute (raw / 8) p.0 o) _ _ λ o' _.
          let fewer = read_value_shrinks (raw % 8 + 1) (pos 0) r {p = p} read in
          read_attributes_enough j k o' p.1 (omega arith) (omega arith))
]
