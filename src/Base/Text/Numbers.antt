-- ===== src/Base/Text/Numbers.antt =====
-- strconv.Atoi, strconv.ParseInt, strconv.ParseUint and strconv.ParseBool.
use Prim.Native.Nat.{ℕ, ◌-◌, ◌^◌, ◌≤◌, ◌<◌}
use mathlib.Core.Path.{◌≡◌, refl, ap, ◌∙◌}
use mathlib.Core.Logic.{◌≢◌}
use native.Mathlib.Omega.{arith}
use mathlib.Core.Bool.{Bool, true, false, ◌&&◌, ◌||◌}
use mathlib.Core.Option.{Option, none, some}
use mathlib.Core.List.{List, [], ◌∷◌}
use jvm_vendors.Base.Tests.{leb, ◌==◌, if◌then◌else◌}
use jvm_vendors.Base.Lists.{is_nil, All}
use jvm_vendors.Base.Int.{ℤ, pos, sub_ℕ}
use jvm_vendors.Base.Text.{Text, codes, is_digit, text_eq}
use jvm_vendors.Base.Text.Decimal.{
  value, IsDigit, decimal, decimal-IsDigit, decimal-ne-nil, value-decimal,
}

unfoldable pub all_digits : Text → Bool
all_digits [] = true
all_digits (c ∷ s) = is_digit c && all_digits s

-- A non-empty run of digits up to a largest number.
unfoldable pub parse_digits : ℕ → Text → Option ℕ
parse_digits largest s =
    if is_nil s
    then none
    else if all_digits s && leb (value s) largest
    then some (value s)
    else none

-- A sign and a magnitude.
signed : Bool → Option ℕ → Option ℤ
signed minus none = none
signed true (some n) = some (sub_ℕ 0 n)
signed false (some n) = some (pos n)

-- `strconv.Atoi`, and `strconv.ParseInt(s, 10, 64)`
unfoldable pub atoi : Text → Option ℤ
unfolding signed parse_digits all_digits
atoi [] = none
atoi (c ∷ s) =
    if c == b'-'
    then signed true (parse_digits (2 ^ 63) s)
    else if c == b'+'
    then signed false (parse_digits (2 ^ 63 - 1) s)
    else signed false (parse_digits (2 ^ 63 - 1) (c ∷ s))

-- `strconv.ParseUint(s, 10, 32)`
unfoldable pub parse_uint32 : Text → Option ℕ
unfolding parse_digits all_digits
parse_uint32 s = parse_digits (2 ^ 32 - 1) s

one_of : List Text → Text → Bool
one_of [] s = false
one_of (t ∷ ts) s = text_eq s t || one_of ts s

-- `strconv.ParseBool`
unfoldable pub parse_bool : Text → Option Bool
unfolding one_of
parse_bool s =
    if one_of (codes "1" ∷ codes "t" ∷ codes "T" ∷ codes "true" ∷ codes "TRUE" ∷ codes "True" ∷ [])
      s
    then some true
    else if one_of
        (codes "0" ∷ codes "f" ∷ codes "F" ∷ codes "false" ∷ codes "FALSE" ∷ codes "False" ∷ []) s
    then some false
    else none

all_digits-IsDigit : (s : Text) → All IsDigit s → all_digits s ≡ true
unfolding all_digits
all_digits-IsDigit [] h = refl
all_digits-IsDigit (c ∷ s) (h, hs) = rw (h, all_digits-IsDigit s hs)

parse_digits-IsDigit :
    (largest : ℕ) (c : ℕ) (s : Text)
    → All IsDigit (c ∷ s)
    → value (c ∷ s) ≤ largest
    → parse_digits largest (c ∷ s) ≡ some (value (c ∷ s))
unfolding parse_digits
parse_digits-IsDigit largest c s h small = rw (all_digits-IsDigit (c ∷ s) h) (ground (arith, small))

atoi-IsDigit :
    (s : Text) → s ≢ [] → All IsDigit s → value s < 2 ^ 63 → atoi s ≡ some (pos (value s))
unfolding atoi is_digit
atoi-IsDigit [] ne h small = absurd (ne refl)
atoi-IsDigit (c ∷ s) ne (h, hs) small =
    ground (arith, parse_digits-IsDigit (2 ^ 63 - 1) c s (h, hs))

-- A number that fits an int is read back from its decimal print.
pub atoi-decimal : (n : ℕ) → n < 2 ^ 63 → atoi (decimal n) ≡ some (pos n)
atoi-decimal n h =
    atoi-IsDigit (decimal n) (decimal-ne-nil n) (decimal-IsDigit n) (rw (value-decimal n) h)
    ∙ ap (λ k. some (pos k)) (value-decimal n)
