-- ===== src/Helper/Memory/Faults/ClassCount.antt =====
-- The causes for which the class count fails.
use jvm_vendors.Base.{ℕ, ◌≡◌, refl, Bool, true, false, Option, none, some, List, [], ◌∷◌, map}
use jvm_vendors.Base.Int.{ℤ}
use jvm_vendors.Base.Float.{Float64}
use jvm_vendors.Base.Result.{err, map_err, FailsWith, >>=-FailsWith, map_err-FailsWith}
use jvm_vendors.Base.Text.{Text, codes, has_suffix, trim_suffix}
use jvm_vendors.Base.Text.Numbers.{atoi, parse_uint32}
use jvm_vendors.Versions.{Semver}
use jvm_vendors.Count.Classes.{ClassError, Step, classes, jar_classes_from}
use jvm_vendors.Helper.Env.{Env, Shellwords}
use jvm_vendors.Helper.Memory.Limits.{LimitFiles}
use jvm_vendors.Helper.Memory.ClassCount.{
  MemoryError, bad_agents, bad_application, ClassFiles, require, number, agent_paths, agents_total,
  count_agent_classes, percentage, addition, class_adjustment, estimated_class_count,
  loaded_class_count,
}
use jvm_vendors.Helper.Memory.Faults.{
  path_required, count_required, loaded_count, jvm_count, adjusted, opts, Fault, not_a_number,
  not_a_percentage, not_words, no_agents, no_application, number-Fault, require-Fault,
  require-eq-ok,
}

module _ {F V : Type 0} (fl : Float64 F) (sv : Semver V) (shellwords : Shellwords)
    (files : ClassFiles) (limits : LimitFiles) (env : Env) where
  abbrev Cause : MemoryError → Type 0
  Cause = Fault fl sv shellwords files limits env

  agents_total-Fault :
      (ps : List (List Step))
      → ((e : ClassError) → jar_classes_from ps ≡ err e → Cause (bad_agents e))
      → FailsWith Cause (agents_total ps)
  unfolding agents_total
  agents_total-Fault [] h = tt
  agents_total-Fault (p ∷ ps) h =
      >>=-FailsWith Cause (map_err bad_agents (jar_classes_from (p ∷ ps))) _
        (map_err-FailsWith Cause bad_agents (jar_classes_from (p ∷ ps)) h) (λ n e. tt)

  count_agent_classes-Fault :
      (o : Option (List Text))
      → shellwords (opts env) ≡ o
      → FailsWith Cause (count_agent_classes shellwords files (opts env))
  unfolding count_agent_classes
  count_agent_classes-Fault none e = rw (e, FailsWith) (not_words e)
  count_agent_classes-Fault (some words) e =
      rw (e, FailsWith)
        (agents_total-Fault (map files.walk_of (agent_paths words)) (λ f h. no_agents words f e h))

  percentage-Fault :
      (s : Text) (o : Option ℕ)
      → env "BPL_JVM_CLASS_ADJUSTMENT" ≡ some s
      → has_suffix s (codes "%") ≡ true
      → parse_uint32 (trim_suffix s (codes "%")) ≡ o
      → FailsWith Cause (percentage s o)
  unfolding percentage
  percentage-Fault s none set h e = not_a_percentage s set h e
  percentage-Fault s (some n) set h e = tt

  addition-Fault :
      (s : Text) (o : Option ℤ)
      → env "BPL_JVM_CLASS_ADJUSTMENT" ≡ some s
      → has_suffix s (codes "%") ≡ false
      → atoi s ≡ o
      → FailsWith Cause (addition s o)
  unfolding addition
  addition-Fault s none set h e = not_a_number _ s (adjusted s h) set e
  addition-Fault s (some n) set h e = tt

  adjusted-Fault :
      (s : Text) (b : Bool)
      → env "BPL_JVM_CLASS_ADJUSTMENT" ≡ some s
      → has_suffix s (codes "%") ≡ b
      → FailsWith Cause (class_adjustment (some s))
  unfolding class_adjustment
  adjusted-Fault s true set h = rw (h, FailsWith) (percentage-Fault s _ set h refl)
  adjusted-Fault s false set h = rw (h, FailsWith) (addition-Fault s _ set h refl)

  class_adjustment-Fault :
      (o : Option Text) → env "BPL_JVM_CLASS_ADJUSTMENT" ≡ o → FailsWith Cause (class_adjustment o)
  unfolding class_adjustment
  class_adjustment-Fault none e = tt
  class_adjustment-Fault (some s) e = adjusted-Fault s _ e refl

  estimated_class_count-Fault :
      FailsWith Cause (estimated_class_count fl shellwords files env (opts env))
  unfolding estimated_class_count
  estimated_class_count-Fault =
      >>=-FailsWith Cause (require env "BPI_APPLICATION_PATH") _
        (require-Fault fl sv shellwords files limits env _ _ path_required refl)
        λ path hp.
          >>=-FailsWith Cause (require env "BPI_JVM_CLASS_COUNT") _
            (require-Fault fl sv shellwords files limits env _ _ count_required refl)
            λ s hs.
              >>=-FailsWith Cause (number "BPI_JVM_CLASS_COUNT" s) _
                (number-Fault fl sv shellwords files limits env _ s _ (jvm_count s)
                  (require-eq-ok fl sv shellwords files limits env _ _ refl hs) refl)
                λ jvm hj.
                  >>=-FailsWith Cause (count_agent_classes shellwords files (opts env)) _
                    (count_agent_classes-Fault _ refl)
                    λ agents ha.
                      >>=-FailsWith Cause (class_adjustment (env "BPL_JVM_CLASS_ADJUSTMENT")) _
                        (class_adjustment-Fault _ refl)
                        λ adj hd.
                          >>=-FailsWith Cause
                            (map_err bad_application
                              (classes (files.modules_of path) (files.walk_of path)))
                            _
                            (map_err-FailsWith Cause bad_application _ (λ e f.
                              no_application path e
                                (require-eq-ok fl sv shellwords files limits env _ _ refl hp) f))
                            λ app h. tt

  pub loaded_class_count-Fault :
      (o : Option Text)
      → env "BPL_JVM_LOADED_CLASS_COUNT" ≡ o
      → FailsWith Cause (loaded_class_count fl shellwords files env (opts env))
  unfolding loaded_class_count
  loaded_class_count-Fault none e = rw (e, FailsWith) estimated_class_count-Fault
  loaded_class_count-Fault (some s) e =
      rw (e, FailsWith)
        (number-Fault fl sv shellwords files limits env _ s _ (loaded_count s) e refl)
