-- ===== src/Helper/Memory/Faults/Execute.antt =====
-- Each error of the memory calculator has its cause.
use jvm_vendors.Base.{◌≡◌, refl}
use jvm_vendors.Base.Float.{Float64}
use jvm_vendors.Base.Result.{
  ok, err, map_err, FailsWith, >>=-FailsWith, map_err-FailsWith, FailsWith-err, map_err-eq-ok,
}
use jvm_vendors.Versions.{Semver}
use jvm_vendors.Calc.Calculator.{Calculator, Output, calculate}
use jvm_vendors.Helper.Env.{Env, Shellwords}
use jvm_vendors.Helper.Memory.{
  head_room, thread_count, low_profile, calculator_of, options_of, execute,
}
use jvm_vendors.Helper.Memory.Limits.{LimitFiles, total_memory}
use jvm_vendors.Helper.Memory.Outcome.{regions_set, options_of-set}
use jvm_vendors.Helper.Memory.ClassCount.{
  MemoryError, bad_calculation, ClassFiles, loaded_class_count,
}
use jvm_vendors.Helper.Memory.Faults.{
  opts, Fault, not_calculated, head_room-Fault, thread_count-Fault, low_profile-Fault,
}
use jvm_vendors.Helper.Memory.Faults.ClassCount.{loaded_class_count-Fault}

module _ {F V : Type 0} (fl : Float64 F) (sv : Semver V) (shellwords : Shellwords)
    (files : ClassFiles) (limits : LimitFiles) (env : Env) where
  abbrev Cause : MemoryError → Type 0
  Cause = Fault fl sv shellwords files limits env

  calculator_of-Fault : FailsWith Cause (calculator_of fl sv shellwords files limits env (opts env))
  unfolding calculator_of
  calculator_of-Fault =
      >>=-FailsWith Cause (head_room env) _ (head_room-Fault fl sv shellwords files limits env)
        λ head hh.
          >>=-FailsWith Cause (loaded_class_count fl shellwords files env (opts env)) _
            (loaded_class_count-Fault fl sv shellwords files limits env _ refl)
            λ loaded hl.
              >>=-FailsWith Cause (thread_count env) _
                (thread_count-Fault fl sv shellwords files limits env _ refl)
                λ threads ht.
                  >>=-FailsWith Cause (low_profile env (total_memory limits)) _
                    (low_profile-Fault fl sv shellwords files limits env (total_memory limits) _
                      refl)
                    λ low h. tt

  options_of-Fault :
      (c : Calculator) (o : Output F)
      → calculate fl shellwords c (opts env) ≡ ok o
      → FailsWith Cause (options_of fl sv env c o)
  options_of-Fault c o h =
      let (heap, metaspace, hh, hm) = regions_set fl sv shellwords c (opts env) h in
      rw (options_of-set fl sv env c o heap metaspace hh hm, FailsWith) tt

  pub execute-FailsWith : FailsWith Cause (execute fl sv shellwords files limits env)
  unfolding execute
  execute-FailsWith =
      >>=-FailsWith Cause (calculator_of fl sv shellwords files limits env (opts env)) _
        calculator_of-Fault
        λ c hc.
          >>=-FailsWith Cause (map_err bad_calculation (calculate fl shellwords c (opts env))) _
            (map_err-FailsWith Cause bad_calculation _ (λ e h. not_calculated c e hc h))
            λ o h. options_of-Fault c o (map_err-eq-ok bad_calculation _ h)

  -- An error of the memory calculator has a cause, which the error names: a variable that is missing
  -- or cannot be read, options that are no words, classes that cannot be counted, or a calculation
  -- that fails. It never panics on a region that is nil.
  pub execute-Fault :
      (e : MemoryError)
      → execute fl sv shellwords files limits env ≡ err e
      → Fault fl sv shellwords files limits env e
  execute-Fault e h = FailsWith-err Cause _ execute-FailsWith h
