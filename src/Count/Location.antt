-- ===== src/Count/Location.antt =====
-- count/location.go: the attributes of a resource of a jimage file.
pub mod Decoding
pub mod Names
use jvm_vendors.Base.{
  ℕ, zero, suc, ◌+◌, ◌*◌, ◌/◌, ◌%◌, Bool, List, [], ◌∷◌, ◌++◌, if◌then◌else◌, ◌==◌, length,
}
use jvm_vendors.Base.Int.{ℤ, pos, ◌+ℤ◌, ◌*ℤ◌, wrap32, eqb_ℤ}
use jvm_vendors.Base.Result.{Result, ok, err, ◌>>=◌}
use jvm_vendors.Base.Text.{codes}
use jvm_vendors.Count.Reader.{Bytes, ImageError, cannot_read, unknown_attribute, seek}
use jvm_vendors.Count.Strings
use jvm_vendors.Count.Strings.{Strings}

pub record Location : Type 0 where
  pub module_offset : ℤ
  pub parent_offset : ℤ
  pub base_offset : ℤ
  pub extension_offset : ℤ
  pub content_offset : ℤ
  pub compressed_size : ℤ
  pub uncompressed_size : ℤ

abbrev pub empty : Location
empty = record {
  module_offset = pos 0;
  parent_offset = pos 0;
  base_offset = pos 0;
  extension_offset = pos 0;
  content_offset = pos 0;
  compressed_size = pos 0;
  uncompressed_size = pos 0;
}

-- The switch on the kind of an attribute; kind 0 ends the location.
set_attribute : ℕ → ℤ → Location → Result ImageError Location
set_attribute kind v o =
    if kind == 1
    then ok (record o { module_offset = v })
    else if kind == 2
    then ok (record o { parent_offset = v })
    else if kind == 3
    then ok (record o { base_offset = v })
    else if kind == 4
    then ok (record o { extension_offset = v })
    else if kind == 5
    then ok (record o { content_offset = v })
    else if kind == 6
    then ok (record o { compressed_size = v })
    else if kind == 7
    then ok (record o { uncompressed_size = v })
    else err (unknown_attribute kind)

-- `value <<= 8` and `value |= int32(raw)`.
abbrev pub push_byte : ℤ → ℕ → ℤ
push_byte v raw = wrap32 (v *ℤ pos 256 +ℤ pos raw)

-- The value of `n` bytes, the highest first, behind the value so far.
read_value : ℕ → ℤ → Bytes → Result ImageError (ℤ × Bytes)
read_value zero v r = ok (v, r)
read_value (suc n) v [] = err cannot_read
read_value (suc n) v (raw ∷ r) = read_value n (push_byte v raw) r

-- The loop over the attributes. Each round reads a byte at least, so one round for each byte and one
-- more are enough.
pub read_attributes : ℕ → Location → Bytes → Result ImageError Location
read_attributes zero o r = err cannot_read
read_attributes (suc rounds) o [] = err cannot_read
read_attributes (suc rounds) o (raw ∷ r) =
    let rest = read_value (raw % 8 + 1) (pos 0) r >>= λ (v, r').
    set_attribute (raw / 8) v o >>= λ o'. read_attributes rounds o' r' in
    if raw / 8 == 0 then ok o else rest

pub record Locations : Type 0 where
  pub offset : ℤ
  pub size : ℤ
  pub reader : Bytes

pub decode : Bytes → Result ImageError Location
unfolding read_attributes read_value set_attribute
decode r = read_attributes (length r + 1) empty r

-- `Locations.Get`
unfoldable pub get : Locations → ℤ → Result ImageError Location
unfolding decode seek ◌+ℤ◌ ◌*ℤ◌ wrap32
get l offset = seek l.reader (l.offset +ℤ offset) >>= decode

-- `Location.Extension`
unfoldable pub extension : Location → Strings → Result ImageError Bytes
extension l strings = Strings.get strings l.extension_offset

-- A part of the full name, if its offset is not 0.
part : Strings → ℤ → (Bytes → Bytes) → Bytes → Result ImageError Bytes
part strings offset extend f =
    if eqb_ℤ offset (pos 0) then ok f else Strings.get strings offset >>= λ s. ok (extend s)

-- `Location.FullName`
unfoldable pub full_name : Location → Strings → Result ImageError Bytes
unfolding part
full_name l strings =
    part strings l.module_offset (λ s. codes "/modules/" ++ (s ++ codes "/")) [] >>= λ f.
    part strings l.parent_offset (λ s. s ++ codes "/") f >>= λ g.
    Strings.get strings l.base_offset >>= λ base.
    part strings l.extension_offset (λ s. (g ++ base) ++ (codes "." ++ s)) (g ++ base)
