-- ===== src/Calc/Flags/Reading.antt =====
-- Reading flags: a printed flag is recognised and read back, and no flag sets two regions.
use jvm_vendors.Base.{
  ℕ, ◌*◌, ◌/◌, ◌<◌, ◌^◌, ◌≡◌, refl, Bool, true, false, not, ◌||◌, none, [], ◌∷◌, ◌++◌, ◌==◌, arith,
  All, All-append,
}
use jvm_vendors.Base.Int.{pos}
use jvm_vendors.Base.Result.{ok}
use jvm_vendors.Base.Text.{
  Text, trim_space, trim_space_id, strip_prefix, strip_prefix-append, is_some,
}
use jvm_vendors.Calc.Size.{Size, unknown, kibi, match_size, parse_size, size_string}
use jvm_vendors.Calc.Size.RoundTrip.{NotSpace, parse_size-size_string, size_string-NotSpace}
use jvm_vendors.Calc.Flags.{flag_group, match_flag, parse_flag}

-- Two prefixes that differ at some place, before either ends.
unfoldable pub clash : Text → Text → Bool
clash [] q = false
clash (c ∷ p) [] = false
clash (c ∷ p) (d ∷ q) = not (c == d) || clash p q

pub strip_prefix-clash :
    (p q s : Text) → clash p q ≡ true → is_some (strip_prefix p s) ≡ true → strip_prefix q s ≡ none
unfolding clash strip_prefix
strip_prefix-clash [] q s h k = cc
strip_prefix-clash (c ∷ p) [] s h k = cc
strip_prefix-clash (c ∷ p) (d ∷ q) [] h k = refl
strip_prefix-clash (c ∷ p) (d ∷ q) (x ∷ s) h k = ground (arith, strip_prefix-clash p q s)

-- A flag that is recognised behind one prefix is not recognised behind another.
pub match_flag-clash :
    (p q s : Text) → clash p q ≡ true → match_flag p s ≡ true → match_flag q s ≡ false
unfolding match_flag flag_group
match_flag-clash p q s h k = rw (strip_prefix-clash p q (trim_space s) h (ground (arith)))

match_size-parse_size :
    (t : Text) {z : Size} → parse_size t ≡ ok z → is_some (match_size (trim_space t)) ≡ true
unfolding parse_size
match_size-parse_size t h = ground arith

-- A printed size below 2^63 bytes behind a prefix without spaces is recognised, and read back rounded down to whole
-- kibibytes.
pub flag-size_string :
    (p : Text) (n : ℕ)
    → All NotSpace p
    → n < 2 ^ 63
    → (match_flag p (p ++ size_string (pos n)) ≡ true)
      × (parse_flag p (p ++ size_string (pos n))
          ≡ ok (record { value = pos (n / kibi * kibi); provenance = unknown }))
unfolding match_flag parse_flag flag_group
flag-size_string p n hp h =
    let t = size_string (pos n) in
    let spaces = size_string-NotSpace n in
    let read = parse_size-size_string n h in
    let found : is_some (match_size t) ≡ true =
      rw (trim_space_id t spaces) at (match_size-parse_size t read) in
    (
      rw (trim_space_id (p ++ t) (All-append NotSpace p t hp spaces), strip_prefix-append, found),
      rw (strip_prefix-append, found, read),
    )
