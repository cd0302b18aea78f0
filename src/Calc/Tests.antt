-- ===== src/Calc/Tests.antt =====
-- The calculator on concrete inputs, with exact fractions in place of floating-point numbers.
use jvm_vendors.Base.{
  ℕ, ◌+◌, ◌*◌, ◌/◌, leb, ◌≤◌, ◌^◌, ◌≡◌, ◌↔◌, refl, true, false, Option, some, List, [], ◌∷◌,
  if◌then◌else◌, arith, All, ◌⊎◌,
}
use jvm_vendors.Base.Int.{mul64, add64, ℤ, pos, quot, wrap64, ◌*ℤ◌, pos_part}
use jvm_vendors.Base.Float.{Float64}
use jvm_vendors.Base.Result.{ok, err}
use jvm_vendors.Base.Text.{
  trim_right, trim_left, strip_prefix, is_digit, Text, codes, trim_space, is_space,
}
use jvm_vendors.Base.Text.Split.{split}
use jvm_vendors.Base.Text.Decimal.{value_from}
use jvm_vendors.Calc.Size.{
  scale, is_unit, split_digits, match_size, unknown, user_configured, calculated, not_integer, kibi,
  mebi, gibi, tebi, max_i64, min_heap_size, parse_size, size_string,
}
use jvm_vendors.Calc.Size.Grammar.{tebibytes_upper, IsSizeText, parse_size-IsSizeText}
use jvm_vendors.Calc.Size.RoundTrip.{NotSpace, parse_size-size_string}
use jvm_vendors.Calc.Flags.{
  parse_stack, match_heap, match_direct_memory, match_reserved_code_cache, flag_group, match_stack,
  match_metaspace, bad_size, heap_prefix, stack_prefix, match_flag, parse_flag,
}
use jvm_vendors.Calc.Flags.Reading.{clash, match_flag-clash}
use jvm_vendors.Calc.Regions.{
  apply_flag, MemoryRegions, bad_stack, default_regions, new_memory_regions_from_flags, apply_flags,
  fixed_regions_size,
}
use jvm_vendors.Calc.Regions.Settings.{IsSetBy, apply_flags-IsSetBy}
use jvm_vendors.Calc.Regions.Sums.{Naturals, fixed_regions_size_wraps}
use jvm_vendors.Calc.Calculator.{
  set_if_unset, Calculator, Output, default_thread_count_value, calculate, with_metaspace,
  low_profile_regions, head_room_of, apply_low_profile_scaling,
}
use jvm_vendors.Calc.Calculator.Fits.{IsFit, calculate-IsFit}
use jvm_vendors.Calc.Calculator.Exact.{calculate_iff}
use jvm_vendors.Calc.Calculator.Errors.{Explains, calculate-Explains, is_flag_fault}
use jvm_vendors.Calc.Calculator.Scaling.{IsScaled, apply_low_profile_scaling-IsScaled}

-- A number over a denominator.
abbrev pub Fraction : Type 0
Fraction = ℤ × ℕ

abbrev pub times : Fraction → Fraction → Fraction
times (a, b) (c, d) = (a *ℤ c, b * d)

abbrev pub over : Fraction → Fraction → Fraction
over (a, b) (c, d) = (a *ℤ pos d, b * pos_part c)

abbrev pub truncated : Fraction → ℤ
truncated (a, b) = quot a b

abbrev pub fractions : Float64 Fraction
fractions = record {
  of_int = λ n. (n, 1);
  mul = times;
  div = over;
  to_int = truncated;
  ratio = λ a b. (pos a, b);
}

abbrev pub words : Text → Option (List Text)
words s = some (split b' ' s)

abbrev pub container : ℤ → Calculator
container total = record {
  head_room = pos 0;
  loaded_class_count = pos 1000;
  low_profile = false;
  thread_count = default_thread_count_value;
  total_memory = record { value = total; provenance = unknown };
}

abbrev plain : MemoryRegions Fraction
plain = default_regions (pos 1, 1)

read_plain :
    new_memory_regions_from_flags words (fractions.of_int (pos 1)) (codes "-Dx=y") ≡ ok plain
unfolding new_memory_regions_from_flags apply_flags split apply_flag match_direct_memory match_flag
    flag_group strip_prefix trim_space is_space match_heap match_metaspace match_reserved_code_cache
    match_stack
read_plain = refl

abbrev plain_fixed :
    Naturals (with_metaspace fractions (container (pos (1 * gibi))) plain) (pos 250)
unfolding with_metaspace set_if_unset add64 mul64
plain_fixed = record {
  direct = 10 * mebi;
  classes = 14000000 + 5800 * 1000;
  code = 240 * mebi;
  stack = 1 * mebi;
  threads = 250;
  metaspace = record { value = pos (14000000 + 5800 * 1000); provenance = calculated };
  direct_is = refl;
  metaspace_set = refl;
  classes_is = refl;
  code_is = refl;
  stack_is = refl;
  threads_is = refl;
}

-- A container of 1G succeeds.
calculate_iff_example :
    ((o : Output Fraction) × (calculate fractions words (container (pos (1 * gibi))) (codes "-Dx=y")
        ≡ ok o))
    ↔ (544088000 + 0 + min_heap_size ≤ 1 * gibi)
unfolding low_profile_regions head_room_of quot ◌*ℤ◌ plain_fixed
calculate_iff_example =
    calculate_iff fractions words (container (pos (1 * gibi))) (codes "-Dx=y") plain read_plain
      (1 * gibi) 0 plain_fixed refl (omega arith) refl refl (omega arith)

abbrev gibi_run :
    (o : Output Fraction) × (calculate fractions words (container (pos (1 * gibi))) (codes "-Dx=y")
      ≡ ok o)
gibi_run = calculate_iff_example.1 (omega arith)

calculate-IsFit_example :
    (m : MemoryRegions Fraction) × (new_memory_regions_from_flags words
        (fractions.of_int (pos 1))
        (codes "-Dx=y")
      ≡ ok m)
    × IsFit fractions
        (container (pos (1 * gibi)))
        (low_profile_regions fractions (container (pos (1 * gibi))) m).0
        (low_profile_regions fractions (container (pos (1 * gibi))) m).1
        gibi_run.0
calculate-IsFit_example =
    calculate-IsFit fractions words (container (pos (1 * gibi))) (codes "-Dx=y") gibi_run.1

bad_run :
    calculate fractions words (container (pos (1 * gibi))) (codes "-Xss9223372036854775808")
    ≡ err (bad_stack (bad_size not_integer))
unfolding calculate new_memory_regions_from_flags apply_flags split apply_flag match_direct_memory
    match_flag flag_group strip_prefix trim_space is_space match_heap match_metaspace
    match_reserved_code_cache match_stack match_size parse_stack parse_flag parse_size split_digits
    is_digit value_from trim_left trim_right is_unit scale mul64 wrap64 ◌*ℤ◌
bad_run = refl

calculate-Explains_example :
    (is_flag_fault (bad_stack (bad_size not_integer)) ≡ true)
    ⊎ Explains (container (pos (1 * gibi))) (bad_stack (bad_size not_integer))
calculate-Explains_example =
    calculate-Explains fractions words (container (pos (1 * gibi)))
      (codes "-Xss9223372036854775808") bad_run

apply_low_profile_scaling-IsScaled_example :
    IsScaled fractions plain
      (apply_low_profile_scaling fractions
        (container (pos (512 * mebi)))
        (plain, default_thread_count_value)).0
      default_thread_count_value
      (apply_low_profile_scaling fractions
        (container (pos (512 * mebi)))
        (plain, default_thread_count_value)).1
apply_low_profile_scaling-IsScaled_example =
    apply_low_profile_scaling-IsScaled fractions (container (pos (512 * mebi))) plain
      default_thread_count_value

two_stacks :
    apply_flags plain (codes "-Xss2M" ∷ codes "-Xss4M" ∷ [])
    ≡ ok (record plain { stack = record { value = pos (4 * mebi); provenance = user_configured } })
unfolding apply_flags split apply_flag match_direct_memory match_flag flag_group strip_prefix
    trim_space is_space match_heap match_metaspace match_reserved_code_cache match_stack match_size
    parse_stack parse_flag parse_size split_digits is_digit value_from trim_left trim_right is_unit
    scale mul64 wrap64 ◌*ℤ◌
two_stacks = refl

apply_flags-IsSetBy_example :
    IsSetBy plain
      (codes "-Xss2M" ∷ codes "-Xss4M" ∷ [])
      (record plain { stack = record { value = pos (4 * mebi); provenance = user_configured } })
apply_flags-IsSetBy_example =
    apply_flags-IsSetBy plain (codes "-Xss2M" ∷ codes "-Xss4M" ∷ []) two_stacks

fixed_regions_size_wraps_example :
    fixed_regions_size
      (record plain { stack = record { value = pos (2 ^ 56); provenance = user_configured } })
      (pos 256)
    ≡ fixed_regions_size
        (record plain { stack = record { value = pos 0; provenance = user_configured } })
        (pos 256)
fixed_regions_size_wraps_example =
    fixed_regions_size_wraps
      (record plain { stack = record { value = pos (2 ^ 56); provenance = user_configured } })
      (2 ^ 56) 256 1 refl refl

parse_size-size_string_example :
    parse_size (size_string (pos 1500))
    ≡ ok (record { value = pos (1500 / kibi * kibi); provenance = unknown })
parse_size-size_string_example = parse_size-size_string 1500 (omega arith)

abbrev nine_tebi : IsSizeText (trim_space (codes " 9T\n")) 9 tebi
unfolding trim_space is_space is_digit value_from
nine_tebi = record {
  ds = codes "9";
  unit = codes "T";
  spelled = refl;
  ds_ne_nil = ground arith;
  ds_digits = (refl, tt);
  ds_value = refl;
  unit_of = tebibytes_upper;
}

parse_size-IsSizeText_example : parse_size (codes " 9T\n") ≡ (
    if leb 9 max_i64
    then ok (record { value = wrap64 (pos (9 * tebi)); provenance = unknown })
    else err not_integer)
parse_size-IsSizeText_example = parse_size-IsSizeText (codes " 9T\n") nine_tebi

heap_prefix-NotSpace : All NotSpace heap_prefix
unfolding is_space
heap_prefix-NotSpace = (refl, (refl, (refl, (refl, tt))))

heap_flag : match_flag heap_prefix (codes "-Xmx1G") ≡ true
unfolding match_flag flag_group strip_prefix trim_space is_space match_size
heap_flag = refl

match_flag-clash_example : match_flag stack_prefix (codes "-Xmx1G") ≡ false
unfolding clash
match_flag-clash_example = match_flag-clash heap_prefix stack_prefix (codes "-Xmx1G") refl heap_flag
