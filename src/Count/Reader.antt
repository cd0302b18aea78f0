-- ===== src/Count/Reader.antt =====
-- count/header.go, count/offset.go and count/redirect.go: the tables at the start of a jimage file.
-- A file is the list of its bytes. A read at an offset seeks first, so a reader is what lies behind
-- the place that it has reached.
use jvm_vendors.Base.{
  ℕ, zero, suc, ◌+◌, ◌-◌, ◌*◌, ◌/◌, ◌%◌, ◌^◌, List, [], ◌∷◌, drop, if◌then◌else◌, ltb, length,
}
use jvm_vendors.Base.Int.{ℤ, pos, negsuc, signed32, residue32, mul32}
use jvm_vendors.Base.Result.{Result, ok, err, ◌>>=◌}

abbrev pub Bytes : Type 0
Bytes = List ℕ

-- The errors of the package; `negative_length` is the panic of `make` on a negative length.
pub data ImageError : Type 0 where
  cannot_seek cannot_read negative_length : ImageError
  unknown_attribute : ℕ → ImageError

-- `Seek(offset, io.SeekStart)`: refused before the start, allowed behind the end.
unfoldable pub seek : Bytes → ℤ → Result ImageError Bytes
seek file (pos n) = ok (drop n file)
seek file (negsuc n) = err cannot_seek

-- `binary.Read` of a little-endian int32.
unfoldable pub read_int32 : Bytes → Result ImageError (ℤ × Bytes)
read_int32 (a ∷ b ∷ c ∷ d ∷ rest) = ok (signed32 (a + 256 * b + 65536 * c + 16777216 * d), rest)
read_int32 _ = err cannot_read

abbrev pub offset_size : ℤ
offset_size = pos 4

abbrev pub redirect_size : ℤ
redirect_size = pos 4

abbrev pub header_slots : ℤ
header_slots = pos 7

abbrev pub header_size : ℤ
header_size = pos 4

pub record Header : Type 0 where
  pub magic : ℤ
  pub major_version : ℤ
  pub minor_version : ℤ
  pub flags : ℤ
  pub resource_count : ℤ
  pub table_length : ℤ
  pub locations_size : ℤ
  pub strings_size : ℤ

-- `version >> 16` and `version & 0xFFFF`, by the two's complement of the version.
abbrev pub high_half : ℤ → ℤ
high_half version =
    if ltb (residue32 version) (2 ^ 31)
    then pos (residue32 version / 65536)
    else negsuc ((2 ^ 32 - 1 - residue32 version) / 65536)

abbrev pub low_half : ℤ → ℤ
low_half version = pos (residue32 version % 65536)

unfoldable pub new_header : Bytes → Result ImageError (Header × Bytes)
unfolding read_int32
new_header file = do
  (magic, r₁) ← read_int32 file
  (version, r₂) ← read_int32 r₁
  (flags, r₃) ← read_int32 r₂
  (resource_count, r₄) ← read_int32 r₃
  (table_length, r₅) ← read_int32 r₄
  (locations_size, r₆) ← read_int32 r₅
  (strings_size, r₇) ← read_int32 r₆
  ok (
    record {
      magic = magic;
      major_version = high_half version;
      minor_version = low_half version;
      flags = flags;
      resource_count = resource_count;
      table_length = table_length;
      locations_size = locations_size;
      strings_size = strings_size;
    },
    r₇,
  )

-- `Header.Size`
unfoldable pub size_of_header : ℤ
unfolding mul32
size_of_header = mul32 header_slots header_size

-- `n` int32 one after another.
unfoldable pub read_entries : ℕ → Bytes → Result ImageError (List ℤ)
read_entries zero r = ok []
read_entries (suc n) r =
    read_int32 r >>= λ (first, rest). read_entries n rest >>= λ entries. ok (first ∷ entries)

-- `make([]T, tableLength)` and the loop over its elements.
unfoldable pub read_table : Bytes → ℤ → ℤ → Result ImageError (List ℤ)
unfolding seek read_entries read_int32
read_table file offset (negsuc n) = err negative_length
read_table file offset (pos n) = do r ← seek file offset; read_entries n r

pub record Offsets : Type 0 where
  pub entries : List ℤ
  pub offset : ℤ

pub record Redirects : Type 0 where
  pub entries : List ℤ
  pub offset : ℤ

unfoldable pub new_offsets : Bytes → ℤ → ℤ → Result ImageError Offsets
unfolding read_table
new_offsets file offset table_length =
    read_table file offset table_length >>= λ es. ok (record { entries = es; offset = offset })

unfoldable pub new_redirects : Bytes → ℤ → ℤ → Result ImageError Redirects
unfolding read_table
new_redirects file offset table_length =
    read_table file offset table_length >>= λ es. ok (record { entries = es; offset = offset })

unfoldable pub size_of_offsets : Offsets → ℤ
unfolding mul32
size_of_offsets o = mul32 (pos (length o.entries)) offset_size

unfoldable pub size_of_redirects : Redirects → ℤ
unfolding mul32
size_of_redirects r = mul32 (pos (length r.entries)) redirect_size
