-- ===== src/Helper/Memory.antt =====
-- helper/memory_calculator.go: the memory calculator, from the variables and files that it reads to
-- the options of the JVM. Only what it logs is left out.
pub mod Limits
pub mod ClassCount
pub mod Shown
pub mod Outcome
pub mod ReadBack
pub mod Faults
use jvm_vendors.Base.{
  ℕ, ◌≡◌, refl, Bool, true, false, not, ◌&&◌, Option, none, some, List, [], ◌∷◌, ◌++◌, String,
  if◌then◌else◌,
}
use jvm_vendors.Base.Int.{ℤ, pos, ltb_ℤ}
use jvm_vendors.Base.Float.{Float64}
use jvm_vendors.Base.Result.{Result, ok, err, ◌>>=◌, map_err}
use jvm_vendors.Base.Text.{Text, codes, contains, join}
use jvm_vendors.Base.Text.Numbers.{parse_bool}
use jvm_vendors.Versions.{Semver, is_java25_or_later}
use jvm_vendors.Calc.Size.{Size, Provenance, unknown, user_configured, low_profile_threshold}
use jvm_vendors.Calc.Flags.{
  direct_memory_string, heap_string, metaspace_string, reserved_code_cache_string, stack_string,
}
use jvm_vendors.Calc.Regions.{MemoryRegions}
use jvm_vendors.Calc.Calculator.{
  Calculator, ThreadCount, Output, default_thread_count_value, calculate, is_user_configured,
}
use jvm_vendors.Helper.Env.{Env, Variables, Shellwords, values, or_empty, java_tool_options}
use jvm_vendors.Helper.Memory.Limits.{LimitFiles, total_memory}
use jvm_vendors.Helper.Memory.ClassCount.{
  MemoryError, bad, nil_region, bad_calculation, ClassFiles, number, loaded_class_count,
}

pub number_or : Env → String → ℤ → Result MemoryError ℤ
number_or env k n = elim (env k) [ none ↦ ok n | some s ↦ number k s ]

-- The deprecated variable is read first, and has to be a number even if the other one is set.
unfoldable pub head_room : Env → Result MemoryError ℤ
unfolding number_or
head_room env =
    number_or env "BPL_JVM_HEADROOM" (pos 0) >>= λ n. number_or env "BPL_JVM_HEAD_ROOM" n

unfoldable pub thread_count : Env → Result MemoryError ThreadCount
thread_count env = elim (env "BPL_JVM_THREAD_COUNT") [
  | none ↦ ok default_thread_count_value
  | some s ↦ number "BPL_JVM_THREAD_COUNT" s >>= λ n.
      ok (record { value = n; provenance = user_configured })
]

enabled_unless : Text → Option Bool → Result MemoryError Bool
enabled_unless s none = err (bad "BPL_LOW_MEMORY_PROFILE_DISABLED" s)
enabled_unless s (some v) = ok (not v)

profile_of : Option Text → Result MemoryError Bool
profile_of none = ok false
profile_of (some s) = enabled_unless s (parse_bool s)

-- The low profile is only for a total below the threshold, and only if the variable is set.
unfoldable pub low_profile : Env → ℤ → Result MemoryError Bool
unfolding profile_of enabled_unless
low_profile env total =
    if ltb_ℤ total (pos low_profile_threshold)
    then profile_of (env "BPL_LOW_MEMORY_PROFILE_DISABLED")
    else ok false

abbrev shown : (Size → Text) → Size → List Text
shown print z = if is_user_configured z.provenance then [] else print z ∷ []

module _ {F V : Type 0} (fl : Float64 F) (sv : Semver V) where
  pub shown_regions : MemoryRegions F → Size → Size → List Text
  shown_regions m heap metaspace =
      shown direct_memory_string m.direct_memory
      ++ (shown heap_string heap
          ++ (shown metaspace_string metaspace
              ++ (shown reserved_code_cache_string m.reserved_code_cache
                  ++ shown stack_string m.stack)))

  -- The flags of the regions that the user has not set.
  unfoldable pub calculated_flags : MemoryRegions F → Result MemoryError (List Text)
  unfolding shown_regions
  calculated_flags m = elim m.heap [
    | none ↦ err nil_region
    | some heap ↦ elim m.metaspace [
      | none ↦ err nil_region
      | some metaspace ↦ ok (shown_regions m heap metaspace)
    ]
  ]

  is_java25 : Option Text → Bool
  is_java25 none = false
  is_java25 (some version) = is_java25_or_later sv version

  abbrev pub compact_object_headers : Text
  compact_object_headers = codes "-XX:+UseCompactObjectHeaders"

  unfoldable pub compact_headers : Env → Bool → Text → List Text
  unfolding is_java25
  compact_headers env low opts =
      if low && is_java25 (env "BPI_JVM_VERSION")
      then (if contains opts compact_object_headers then [] else compact_object_headers ∷ [])
      else []

  -- The settings from the environment and the files.
  unfoldable pub calculator_of :
      Shellwords → ClassFiles → LimitFiles → Env → Text → Result MemoryError Calculator
  calculator_of shellwords files limits env opts = head_room env >>= λ head.
      loaded_class_count fl shellwords files env opts >>= λ loaded. thread_count env >>= λ threads.
      let total = total_memory limits in
      low_profile env total >>= λ low. ok (record {
        head_room = head;
        loaded_class_count = loaded;
        low_profile = low;
        thread_count = threads;
        total_memory = record { value = total; provenance = unknown };
      })

  -- The options of a calculation: those that were set, the flags, and compact object headers.
  unfoldable pub options_of : Env → Calculator → Output F → Result MemoryError Variables
  options_of env c o =
      let opts = env java_tool_options in
      calculated_flags o.memory >>= λ flags.
      let vs = values opts ++ (flags ++ compact_headers env c.low_profile (or_empty opts)) in
      ok ((java_tool_options, join vs (codes " ")) ∷ [])

  -- `MemoryCalculator.Execute`
  unfoldable pub execute : Shellwords → ClassFiles → LimitFiles → Env → Result MemoryError Variables
  execute shellwords files limits env =
      let opts = or_empty (env java_tool_options) in
      calculator_of shellwords files limits env opts >>= λ c.
      map_err bad_calculation (calculate fl shellwords c opts) >>= λ o. options_of env c o
