-- ===== src/Helper/Memory/Limits.antt =====
-- helper/memory_calculator.go: the total memory, from the files of the control groups and of the
-- system.
pub mod Sources
use jvm_vendors.Base.{
  ℕ, ◌≡◌, refl, Bool, true, false, ◌||◌, ◌*◌, Option, none, some, List, [], ◌∷◌, ltb, leb, ◌==◌,
  if◌then◌else◌,
}
use jvm_vendors.Base.Int.{ℤ, pos, mul64, eqb_ℤ, ltb_ℤ}
use jvm_vendors.Base.Result.{Result, ok, err}
use jvm_vendors.Base.Files.{FileRead, contents, not_found, unreadable}
use jvm_vendors.Base.Text.{Text, codes, strip_prefix, trim_space, text_eq}
use jvm_vendors.Base.Text.Decimal.{value}
use jvm_vendors.Calc.Size.{
  Size, unknown, SizeError, max_i64, gibi, tebi, parse_size, parse_unit, split_digits,
}

-- UnsetTotalMemory
abbrev pub unset_total_memory : ℤ
unset_total_memory = pos 9223372036854771712

-- MaxJVMSize
abbrev pub max_jvm_size : ℕ
max_jvm_size = 64 * tebi

limit_of : Text → Result SizeError Size → ℤ
limit_of limit (ok size) = size.value
limit_of limit (err e) = unset_total_memory

-- `getMemoryLimitFromPath`. The text "max" only spares the warning.
unfoldable pub memory_limit_from_path : FileRead → ℤ
unfolding limit_of
memory_limit_from_path (contents s) = let limit = trim_space s in limit_of limit (parse_size limit)
memory_limit_from_path not_found = unset_total_memory
memory_limit_from_path unreadable = unset_total_memory

-- The class \s.
is_pattern_space : ℕ → Bool
is_pattern_space c = c == 9 || c == 10 || c == 12 || c == 13 || c == 32

skip_spaces : Text → Text
skip_spaces [] = []
skip_spaces (c ∷ s) = let rest = skip_spaces s in if is_pattern_space c then rest else c ∷ s

-- The group (.*), which a line break ends.
line_of : Text → Text
line_of [] = []
line_of (c ∷ s) = let rest = line_of s in if c == 10 then [] else c ∷ rest

digits_and_line : Text × Text → Option (Text × Text)
digits_and_line ([], rest) = none
digits_and_line (d ∷ ds, rest) = some (d ∷ ds, line_of rest)

match_here : Option Text → Option (Text × Text)
match_here none = none
match_here (some rest) = digits_and_line (split_digits (skip_spaces rest))

or_else : Option (Text × Text) → Option (Text × Text) → Option (Text × Text)
or_else none o = o
or_else (some m) o = some m

-- The two groups of MemAvailable:\s*(\d+)(.*) at the leftmost place where it matches.
match_available : Text → Option (Text × Text)
unfolding match_here or_else digits_and_line line_of skip_spaces is_pattern_space
match_available [] = none
match_available (c ∷ s) =
    or_else (match_here (strip_prefix (codes "MemAvailable:") (c ∷ s))) (match_available s)

available : Text → Result SizeError ℤ → Option ℤ
available ds (ok unit) = some (mul64 (pos (value ds)) unit)
available ds (err e) = none

available_of : Option (Text × Text) → Option ℤ
available_of none = none
available_of (some (ds, unit)) =
    if leb (value ds) max_i64 then available ds (parse_unit unit) else none

-- `parseMemInfo`; every error has the same effect.
unfoldable pub parse_mem_info : Text → Option ℤ
unfolding match_available available_of available
parse_mem_info s = available_of (match_available s)

or_unset : Option ℤ → ℤ
or_unset none = unset_total_memory
or_unset (some n) = n

pub available_memory : FileRead → ℤ
available_memory (contents s) = or_unset (parse_mem_info s)
available_memory not_found = unset_total_memory
available_memory unreadable = unset_total_memory

-- The files in the order in which they are read.
pub record LimitFiles : Type 0 where
  pub v1 : FileRead
  pub v2 : FileRead
  pub mem_info : FileRead

abbrev is_unset : ℤ → Bool
is_unset n = eqb_ℤ n unset_total_memory

-- A file is only read if those before it set no limit.
unfoldable pub found_memory : LimitFiles → ℤ
unfolding available_memory or_unset
found_memory files =
    let first = memory_limit_from_path files.v1 in
    let second = if is_unset first then memory_limit_from_path files.v2 else first in
    if is_unset second then available_memory files.mem_info else second

unfoldable pub total_memory : LimitFiles → ℤ
total_memory files =
    let n = found_memory files in
    if is_unset n then pos gibi else if ltb_ℤ (pos max_jvm_size) n then pos max_jvm_size else n
