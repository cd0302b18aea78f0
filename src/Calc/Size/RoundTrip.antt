-- ===== src/Calc/Size/RoundTrip.antt =====
-- Printing a size and reading it back.
use jvm_vendors.Base.{
  ℕ, ◌+◌, ◌*◌, ◌/◌, ◌%◌, ◌≤◌, ◌<◌, ◌^◌, ◌≡◌, ◌==◌, refl, false, ◌++◌, arith, All, All-append,
  All-imp, Bool-cases, inl, inr,
}
use jvm_vendors.Base.Int.{pos, quot, eqb_ℤ}
use jvm_vendors.Base.Result.{ok}
use jvm_vendors.Base.Text.{Text, codes, is_digit, is_space, trim_space, trim_space_id}
use jvm_vendors.Base.Text.Decimal.{
  IsDigit, decimal, decimal_ℤ, decimal-IsDigit, decimal-ne-nil, value-decimal,
}
use jvm_vendors.Calc.Size.{unknown, kibi, mebi, gibi, max_i64, parse_size, size_string, is_multiple}
use jvm_vendors.Calc.Size.Grammar.{
  IsUnit, kibibytes_upper, mebibytes_upper, gibibytes_upper, tebibytes_upper, bytes, IsSizeText,
  parse_size_exact,
}

abbrev pub NotSpace : ℕ → Type 0
NotSpace c = is_space c ≡ false

digit-NotSpace : (c : ℕ) → IsDigit c → NotSpace c
unfolding is_digit is_space
digit-NotSpace c h = ground arith

pub IsSizeText-decimal : (q : ℕ) {u : Text} {k : ℕ} → IsUnit u k → IsSizeText (decimal q ++ u) q k
IsSizeText-decimal q {u} unit = record {
  ds = decimal q;
  unit = u;
  spelled = refl;
  ds_ne_nil = decimal-ne-nil q;
  ds_digits = decimal-IsDigit q;
  ds_value = value-decimal q;
  unit_of = unit;
}

pub trim_space-decimal :
    (q : ℕ) (u : Text) → All NotSpace u → trim_space (decimal q ++ u) ≡ decimal q ++ u
trim_space-decimal q u h = trim_space_id (decimal q ++ u) (
    All-append NotSpace (decimal q) u
      (All-imp IsDigit NotSpace digit-NotSpace (decimal q) (decimal-IsDigit q)) h)

-- A number printed with a unit is read back, if its bytes fit an int64.
pub parse_size-decimal :
    (q : ℕ) {u : Text} {k : ℕ}
    → IsUnit u k
    → All NotSpace u
    → q ≤ max_i64
    → q * k < 2 ^ 63
    → parse_size (decimal q ++ u) ≡ ok (record { value = pos (q * k); provenance = unknown })
parse_size-decimal q {u} unit h small fits =
    parse_size_exact (decimal q ++ u) (rw (trim_space-decimal q u h) (IsSizeText-decimal q unit))
      small fits

letters-NotSpace :
    All NotSpace (codes "T")
    × All NotSpace (codes "G")
    × All NotSpace (codes "M")
    × All NotSpace (codes "K")
unfolding is_space
letters-NotSpace = ((refl, tt), (refl, tt), (refl, tt), (refl, tt))

parse_size-zero : parse_size (codes "0") ≡ ok (record { value = pos 0; provenance = unknown })
unfolding decimal
parse_size-zero = parse_size-decimal 0 bytes tt (omega arith) (omega arith)

-- A size below 2^63 bytes that is printed and read back is rounded down to whole kibibytes.
pub parse_size-size_string :
    (n : ℕ)
    → n < 2 ^ 63
    → parse_size (size_string (pos n))
      ≡ ok (record { value = pos (n / kibi * kibi); provenance = unknown })
unfolding size_string decimal_ℤ quot is_multiple
parse_size-size_string n h =
    let b = n / kibi in
    ground (
      arith,
      parse_size-zero,
      parse_size-decimal (b / gibi) tebibytes_upper letters-NotSpace.0,
      parse_size-decimal (b / mebi) gibibytes_upper letters-NotSpace.1,
      parse_size-decimal (b / kibi) mebibytes_upper letters-NotSpace.2,
      parse_size-decimal b kibibytes_upper letters-NotSpace.3,
    )

unit-NotSpace : (q : ℕ) (u : Text) → All NotSpace u → All NotSpace (decimal q ++ u)
unit-NotSpace q u =
    All-append NotSpace (decimal q) u
      (All-imp IsDigit NotSpace digit-NotSpace (decimal q) (decimal-IsDigit q))

-- The print of a size holds no space.
pub size_string-NotSpace : (n : ℕ) → All NotSpace (size_string (pos n))
unfolding size_string decimal_ℤ quot is_multiple is_space
size_string-NotSpace n =
    let b = n / kibi in
    elim (Bool-cases (eqb_ℤ (pos b) (pos 0))) [
      | inl e ↦ rw e (refl, tt)
      | inr e ↦ rw e (elim (Bool-cases ((b + 0) % gibi == 0)) [
        | inl t ↦ rw t (unit-NotSpace (b / gibi) (codes "T") letters-NotSpace.0)
        | inr t ↦ rw t (elim (Bool-cases ((b + 0) % mebi == 0)) [
          | inl g ↦ rw g (unit-NotSpace (b / mebi) (codes "G") letters-NotSpace.1)
          | inr g ↦ rw g (elim (Bool-cases ((b + 0) % kibi == 0)) [
            | inl m ↦ rw m (unit-NotSpace (b / kibi) (codes "M") letters-NotSpace.2)
            | inr m ↦ rw m (unit-NotSpace b (codes "K") letters-NotSpace.3)
          ])
        ])
      ])
    ]
