-- ===== src/Base/Text/Decimal.antt =====
-- Decimal print and parse: `%d`, strconv.FormatInt, and strconv.ParseInt on digits.
use Prim.Native.Nat.{ℕ, zero, suc, ◌+◌, ◌-◌, ◌*◌, ◌/◌, ◌%◌, ◌<◌}
use mathlib.Core.Path.{◌≡◌, refl}
use mathlib.Core.Logic.{◌≢◌}
use mathlib.Core.Bool.{true}
use mathlib.Core.List.{[], ◌∷◌, ◌++◌}
use native.Mathlib.Omega.{arith}
use jvm_vendors.Base.Tests.{ltb, if◌then◌else◌}
use jvm_vendors.Base.Lists.{All, All-append}
use jvm_vendors.Base.Int.{ℤ, pos, negsuc}
use jvm_vendors.Base.Text.{Text, is_digit}

abbrev pub IsDigit : ℕ → Type 0
IsDigit c = is_digit c ≡ true

-- The number that digits spell behind `n`.
unfoldable pub value_from : ℕ → Text → ℕ
value_from n [] = n
value_from n (c ∷ s) = value_from (n * 10 + (c - b'0')) s

abbrev pub value : Text → ℕ
value = value_from 0

-- The digits of `n`, with one unit of fuel for each. `suc n` units are always enough.
unfoldable pub digits : ℕ → ℕ → Text
digits zero n = []
digits (suc f) n =
    let high = digits f (n / 10) in
    if ltb n 10 then (b'0' + n) ∷ [] else high ++ (b'0' + n % 10) ∷ []

unfoldable pub decimal : ℕ → Text
unfolding digits
decimal n = digits (suc n) n

-- `%d`
unfoldable pub decimal_ℤ : ℤ → Text
unfolding decimal
decimal_ℤ (pos n) = decimal n
decimal_ℤ (negsuc n) = b'-' ∷ decimal (suc n)

value_from-append :
    (s : Text) (n c : ℕ) → value_from n (s ++ c ∷ []) ≡ value_from n s * 10 + (c - b'0')
unfolding value_from
value_from-append [] n c = refl
value_from-append (d ∷ s) n c = value_from-append s (n * 10 + (d - b'0')) c

IsDigit-IsDigit : (d : ℕ) → d < 10 → IsDigit (b'0' + d)
unfolding is_digit
IsDigit-IsDigit d h = ground arith

digits-IsDigit : (f n : ℕ) → All IsDigit (digits f n)
unfolding digits
digits-IsDigit zero n = tt
digits-IsDigit (suc f) n =
    let last : All IsDigit ((b'0' + n % 10) ∷ []) = (IsDigit-IsDigit (n % 10) (omega arith), tt) in
    ground (
      arith,
      IsDigit-IsDigit n,
      All-append IsDigit (digits f (n / 10)) ((b'0' + n % 10) ∷ []) (digits-IsDigit f (n / 10))
          last,
    )

value-digits : (f n : ℕ) → n < f → value (digits f n) ≡ n
unfolding digits value_from
value-digits zero n h = absurd (omega arith)
value-digits (suc f) n h =
    ground (arith, value-digits f (n / 10), value_from-append (digits f (n / 10)) 0 (b'0' + n % 10))

pub decimal-IsDigit : (n : ℕ) → All IsDigit (decimal n)
unfolding decimal
decimal-IsDigit n = digits-IsDigit (suc n) n

-- A number is read back from its decimal print.
pub value-decimal : (n : ℕ) → value (decimal n) ≡ n
unfolding decimal
value-decimal n = value-digits (suc n) n (omega arith)

append-ne-nil : (s : Text) (c : ℕ) → s ++ c ∷ [] ≢ []
append-ne-nil [] c = ground arith
append-ne-nil (d ∷ s) c = ground arith

pub decimal-ne-nil : (n : ℕ) → decimal n ≢ []
unfolding decimal
decimal-ne-nil n = ground (arith, append-ne-nil (digits n (n / 10)) (b'0' + n % 10))
