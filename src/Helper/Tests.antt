-- ===== src/Helper/Tests.antt =====
-- The helpers on concrete inputs: a library sherpa as documented, words split at spaces, whole
-- numbers for floating-point ones, and versions that are numbers.
use jvm_vendors.Base.{arith, ◌≡◌, ◌↔◌, refl, true, none, some, List, [], ◌∷◌}
use jvm_vendors.Base.Int.{ℤ, pos, ◌≤ℤ◌}
use jvm_vendors.Base.Result.{ok, err}
use jvm_vendors.Base.Text.{Text, codes, is_digit}
use jvm_vendors.Calc.Calculator.{Calculator, Output, calculate}
use jvm_vendors.Helper.Samples.{words, sherpa, limits, versions, naturals, no_files}
use jvm_vendors.Helper.Env.{Env, Variables, IsDocumented, or_empty, java_tool_options}
use jvm_vendors.Helper.Options.{
  java_opts, active_processor_count, jvm_heap_dump, security_providers_classpath_8, debug_8,
  debug_9,
}
use jvm_vendors.Helper.Options.Added.{Keeps, options_helpers-Keeps}
use jvm_vendors.Helper.Options.Debug.{Debugs, ipv6_on, with_variables, debug_helpers-Debugs}
use jvm_vendors.Calc.Size.{default, calculated, user_configured}
use jvm_vendors.Calc.Regions.{MemoryRegions, default_regions, apply_flags}
use jvm_vendors.Helper.Memory.ReadBack.{sized, kept, regions, calculated_flags-read_back}
use jvm_vendors.Helper.Memory.Faults.{Fault}
use jvm_vendors.Helper.Memory.Faults.Execute.{execute-Fault}
use jvm_vendors.Base.Text.Numbers.{atoi}
use jvm_vendors.Helper.Memory.{head_room, execute, calculator_of, calculated_flags}
use jvm_vendors.Helper.Memory.Limits.{
  total_memory, memory_limit_from_path, available_memory, max_jvm_size,
}
use jvm_vendors.Helper.Memory.Limits.Sources.{first_set, bounded, total_memory-first_set}
use jvm_vendors.Helper.Memory.ClassCount.{bad, number}
use jvm_vendors.Helper.Memory.Outcome.{Run, execute_iff}

abbrev no_env : Env
no_env k = none

sherpa-IsDocumented : IsDocumented sherpa
sherpa-IsDocumented = record {
  bool_value = λ e k. refl;
  set_value = λ e k d v h. rw h;
  default_value = λ e k d h. rw h;
  appended = λ e k delimiter vs. refl;
}

options_helpers-Keeps_example :
    Keeps no_env (java_opts no_env)
    × Keeps no_env (active_processor_count words 2 no_env)
    × Keeps no_env (jvm_heap_dump words (λ p. true) (codes "2020") no_env)
    × Keeps no_env (security_providers_classpath_8 no_env)
options_helpers-Keeps_example = options_helpers-Keeps words 2 (λ p. true) (codes "2020") no_env

-- Debugging is on, and some options are set.
abbrev debug_env : Env
debug_env =
    with_variables (("BPL_DEBUG_ENABLED", codes "true") ∷ ("JAVA_TOOL_OPTIONS", codes "-x") ∷ [])
      no_env

debug_helpers-Debugs_example :
    ((vs : Variables) × (debug_8 sherpa debug_env ≡ ok vs)
      × Debugs debug_env [] vs
      × (debug_8 sherpa (with_variables vs debug_env) ≡ ok []))
    × ((vs : Variables) × (debug_9 sherpa debug_env (some (codes "0", true)) ≡ ok vs)
        × Debugs debug_env (codes "*:") vs
        × (debug_9 sherpa (with_variables vs debug_env) (some (codes "0", true)) ≡ ok []))
debug_helpers-Debugs_example =
    debug_helpers-Debugs sherpa sherpa-IsDocumented debug_env (some (codes "0", true)) (codes "*:")
      (ipv6_on b'0' [] refl)

total_memory-first_set_example :
    (total_memory limits
      ≡ bounded (
          first_set (
            memory_limit_from_path limits.v1
            ∷ memory_limit_from_path limits.v2
            ∷ available_memory limits.mem_info
            ∷ [])))
    × (total_memory limits ≤ℤ pos max_jvm_size)
total_memory-first_set_example = total_memory-first_set limits

-- Every variable is set to 10.
abbrev tens : Env
tens k = some (codes "10")

execute_iff_example :
    (((vs : Variables) × (execute naturals versions words no_files limits tens ≡ ok vs)) ↔ (
      (c : Calculator) × (o : Output ℤ) × (calculator_of naturals versions words no_files limits
          tens
          (or_empty (tens java_tool_options))
        ≡ ok c)
      × (calculate naturals words c (or_empty (tens java_tool_options)) ≡ ok o)))
    × Run naturals versions words no_files limits tens
        (execute naturals versions words no_files limits tens)
execute_iff_example = execute_iff naturals versions words no_files limits tens

abbrev no_number : Env
no_number k = some (codes "x")

no_head_room :
    execute naturals versions words no_files limits no_number
    ≡ err (bad "BPL_JVM_HEADROOM" (codes "x"))
unfolding execute calculator_of head_room number atoi is_digit
no_head_room = refl

execute-Fault_example :
    Fault naturals versions words no_files limits no_number (bad "BPL_JVM_HEADROOM" (codes "x"))
execute-Fault_example =
    execute-Fault naturals versions words no_files limits no_number _ no_head_room

abbrev some_regions : MemoryRegions ℤ
some_regions = default_regions (pos 1)

calculated_flags-read_back_example :
    (flags : List Text) × (calculated_flags naturals versions (
        regions some_regions
          (sized 10 default)
          (sized 2050 calculated)
          (sized 30 calculated)
          (sized 40 user_configured)
          (sized 50 default))
      ≡ ok flags)
    × (apply_flags
          (regions some_regions
            (sized 10 default)
            (sized 2050 calculated)
            (sized 30 calculated)
            (sized 40 user_configured)
            (sized 50 default))
          flags
        ≡ ok (
            regions some_regions
              (kept 10 default)
              (kept 2050 calculated)
              (kept 30 calculated)
              (kept 40 user_configured)
              (kept 50 default)))
calculated_flags-read_back_example =
    calculated_flags-read_back naturals versions some_regions 10 2050 30 40 50 default calculated
      calculated user_configured default (omega arith) (omega arith) (omega arith) (omega arith)
      (omega arith)
