-- ===== src/Calc/Size.antt =====
-- calc/size.go: sizes in bytes with their unit suffixes. The regular expression is written out:
-- the longest run of digits, then at most one suffix, then the end of the text.
pub mod Grammar
pub mod RoundTrip
use jvm_vendors.Base.{
  ℕ, ◌+◌, ◌/◌, ◌%◌, ◌^◌, ◌*◌, ◌≡◌, refl, Bool, ◌||◌, ◌&&◌, Option, none, some, List, [], ◌∷◌, ◌++◌,
  ltb, leb, ◌==◌, if◌then◌else◌,
}
use jvm_vendors.Base.Int.{ℤ, pos, negsuc, pos_part, neg_part, quot, mul64, eqb_ℤ}
use jvm_vendors.Base.Result.{Result, ok, err}
use jvm_vendors.Base.Text.{Text, codes, within, is_space, is_digit, trim_space, text_eq}
use jvm_vendors.Base.Text.Decimal.{value_from, value, decimal_ℤ}

pub data Provenance : Type 0 where
  unknown default user_configured calculated : Provenance

pub record Size : Type 0 where
  pub value : ℤ
  pub provenance : Provenance

pub data SizeError : Type 0 where
  no_match not_integer unknown_unit : SizeError

abbrev pub kibi : ℕ
kibi = 1024

abbrev pub mebi : ℕ
mebi = 1024 * kibi

abbrev pub gibi : ℕ
gibi = 1024 * mebi

abbrev pub tebi : ℕ
tebi = 1024 * gibi

abbrev pub low_profile_threshold : ℕ
low_profile_threshold = 1 * gibi

abbrev pub min_stack_size : ℕ
min_stack_size = 256 * kibi

abbrev pub min_code_cache_size : ℕ
min_code_cache_size = 2496 * kibi

abbrev pub min_thread_count : ℕ
min_thread_count = 30

abbrev pub min_heap_size : ℕ
min_heap_size = 32 * mebi

abbrev pub max_i64 : ℕ
max_i64 = 9223372036854775807

-- `strings.ToLower` on an ASCII letter.
abbrev pub to_lower : ℕ → ℕ
to_lower c = if within b'A' b'Z' c then c + 32 else c

-- The longest run of digits in front, and what follows it.
unfoldable pub split_digits : Text → Text × Text
split_digits [] = ([], [])
split_digits (c ∷ s) =
    let (ds, rest) = split_digits s in if is_digit c then (c ∷ ds, rest) else ([], c ∷ s)

-- The class [kmgtKMGT].
unfoldable pub is_unit : ℕ → Bool
is_unit c = let l = to_lower c in l == b'k' || l == b'm' || l == b'g' || l == b't'

groups : Text × Text → Option (Text × Text)
groups ([], rest) = none
groups (d ∷ ds, []) = some (d ∷ ds, [])
groups (d ∷ ds, c ∷ []) = if is_unit c then some (d ∷ ds, c ∷ []) else none
groups (d ∷ ds, c ∷ c' ∷ r) = none

-- `SizeRE.FindStringSubmatch`: the two groups of ^([\d]+)([kmgtKMGT]?)$.
unfoldable pub match_size : Text → Option (Text × Text)
unfolding groups split_digits is_unit is_digit
match_size s = groups (split_digits s)

-- The switch on the suffix. The product wraps around as an int64 does.
unfoldable pub scale : Text → ℤ → ℤ
scale [] n = n
scale (c ∷ s) n =
    let l = to_lower c in
    if l == b'k'
    then mul64 n (pos kibi)
    else if l == b'm'
    then mul64 n (pos mebi)
    else if l == b'g'
    then mul64 n (pos gibi)
    else if l == b't'
    then mul64 n (pos tebi)
    else n

size_of : Option (Text × Text) → Result SizeError Size
size_of none = err no_match
size_of (some (ds, unit)) =
    if leb (value ds) max_i64
    then ok (record { value = scale unit (pos (value ds)); provenance = unknown })
    else err not_integer

-- `ParseSize`
unfoldable pub parse_size : Text → Result SizeError Size
unfolding size_of
parse_size s = size_of (match_size (trim_space s))

is_multiple : ℤ → ℕ → Bool
is_multiple b d = (pos_part b + neg_part b) % d == 0

-- `Size.String`, on the number of bytes.
unfoldable pub size_string : ℤ → Text
unfolding is_multiple quot decimal_ℤ
size_string n =
    let b = quot n kibi in
    if eqb_ℤ b (pos 0)
    then codes "0"
    else if is_multiple b gibi
    then decimal_ℤ (quot b gibi) ++ codes "T"
    else if is_multiple b mebi
    then decimal_ℤ (quot b mebi) ++ codes "G"
    else if is_multiple b kibi
    then decimal_ℤ (quot b kibi) ++ codes "M"
    else decimal_ℤ b ++ codes "K"

unfoldable pub parse_unit : Text → Result SizeError ℤ
parse_unit u =
    let t = trim_space u in
    if text_eq t (codes "kB") || text_eq t (codes "KB") || text_eq t (codes "KiB")
    then ok (pos kibi)
    else if text_eq t (codes "MB") || text_eq t (codes "MiB")
    then ok (pos mebi)
    else if text_eq t (codes "GB") || text_eq t (codes "GiB")
    then ok (pos gibi)
    else if text_eq t (codes "TB") || text_eq t (codes "TiB")
    then ok (pos tebi)
    else if text_eq t (codes "B") || text_eq t (codes "")
    then ok (pos 1)
    else err unknown_unit

ten_megabytes :
    parse_size (codes " 10m\n") ≡ ok (record { value = pos (10 * mebi); provenance = unknown })
unfolding parse_size match_size trim_space is_space value_from scale mul64
ten_megabytes = refl

print_gigabytes : size_string (pos (3 * gibi)) ≡ codes "3G"
unfolding size_string
print_gigabytes = refl

print_negative : size_string (negsuc (5 * kibi)) ≡ codes "-5K"
unfolding size_string
print_negative = refl
