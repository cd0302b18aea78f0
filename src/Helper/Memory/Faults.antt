-- ===== src/Helper/Memory/Faults.antt =====
-- What the errors of the memory calculator mean: the causes, and those of the simple settings.
pub mod ClassCount
pub mod Execute
use jvm_vendors.Base.{
  ◌≡◌, refl, Bool, true, false, Option, none, some, List, ◌∷◌, String, map, arith,
}
use jvm_vendors.Base.Int.{ℤ, pos, ltb_ℤ}
use jvm_vendors.Base.Float.{Float64}
use jvm_vendors.Base.Result.{ok, err, FailsWith, >>=-FailsWith}
use jvm_vendors.Base.Text.{Text, codes, has_suffix, trim_suffix}
use jvm_vendors.Base.Text.Numbers.{atoi, parse_uint32, parse_bool}
use jvm_vendors.Versions.{Semver}
use jvm_vendors.Calc.Size.{low_profile_threshold}
use jvm_vendors.Calc.Regions.{CalcError}
use jvm_vendors.Calc.Calculator.{Calculator, calculate}
use jvm_vendors.Count.Classes.{ClassError, classes, jar_classes_from}
use jvm_vendors.Helper.Env.{Env, Shellwords, or_empty, java_tool_options}
use jvm_vendors.Helper.Memory.{
  number_or, head_room, thread_count, profile_of, enabled_unless, low_profile, calculator_of,
}
use jvm_vendors.Helper.Memory.Limits.{LimitFiles}
use jvm_vendors.Helper.Memory.ClassCount.{
  MemoryError, missing, bad, unparsable_options, bad_agents, bad_application, bad_calculation,
  ClassFiles, require, number, agent_paths,
}

-- The variables that have to be set if the classes are counted.
pub data IsRequired : String → Type 0 where
  path_required : IsRequired "BPI_APPLICATION_PATH"
  count_required : IsRequired "BPI_JVM_CLASS_COUNT"

-- The variables that hold an integer. The adjustment does unless it ends in a percent sign.
pub data HoldsNumber : String → Text → Type 0 where
  old_head_room : (s : Text) → HoldsNumber "BPL_JVM_HEADROOM" s
  new_head_room : (s : Text) → HoldsNumber "BPL_JVM_HEAD_ROOM" s
  loaded_count : (s : Text) → HoldsNumber "BPL_JVM_LOADED_CLASS_COUNT" s
  threads : (s : Text) → HoldsNumber "BPL_JVM_THREAD_COUNT" s
  jvm_count : (s : Text) → HoldsNumber "BPI_JVM_CLASS_COUNT" s
  adjusted :
      (s : Text) → has_suffix s (codes "%") ≡ false → HoldsNumber "BPL_JVM_CLASS_ADJUSTMENT" s

-- The options that are set.
abbrev pub opts : Env → Text
opts env = or_empty (env java_tool_options)

module _ {F V : Type 0} (fl : Float64 F) (sv : Semver V) (shellwords : Shellwords)
    (files : ClassFiles) (limits : LimitFiles) (env : Env) where
  -- An error and its cause. There is none for a region that is nil.
  pub data Fault : MemoryError → Type 0 where
    not_set : (k : String) → IsRequired k → env k ≡ none → Fault (missing k)
    not_a_number :
        (k : String) (s : Text) → HoldsNumber k s → env k ≡ some s → atoi s ≡ none → Fault (bad k s)
    not_a_percentage :
        (s : Text)
        → env "BPL_JVM_CLASS_ADJUSTMENT" ≡ some s
        → has_suffix s (codes "%") ≡ true
        → parse_uint32 (trim_suffix s (codes "%")) ≡ none
        → Fault (bad "BPL_JVM_CLASS_ADJUSTMENT" s)
    not_a_bool :
        (s : Text)
        → env "BPL_LOW_MEMORY_PROFILE_DISABLED" ≡ some s
        → parse_bool s ≡ none
        → Fault (bad "BPL_LOW_MEMORY_PROFILE_DISABLED" s)
    not_words : shellwords (opts env) ≡ none → Fault unparsable_options
    no_agents :
        (words : List Text) (e : ClassError)
        → shellwords (opts env) ≡ some words
        → jar_classes_from (map files.walk_of (agent_paths words)) ≡ err e
        → Fault (bad_agents e)
    no_application :
        (path : Text) (e : ClassError)
        → env "BPI_APPLICATION_PATH" ≡ some path
        → classes (files.modules_of path) (files.walk_of path) ≡ err e
        → Fault (bad_application e)
    not_calculated :
        (c : Calculator) (e : CalcError)
        → calculator_of fl sv shellwords files limits env (opts env) ≡ ok c
        → calculate fl shellwords c (opts env) ≡ err e
        → Fault (bad_calculation e)

  pub number-Fault :
      (k : String) (s : Text) (o : Option ℤ)
      → HoldsNumber k s
      → env k ≡ some s
      → atoi s ≡ o
      → FailsWith Fault (number k s)
  unfolding number
  number-Fault k s none h set e = rw (e, FailsWith) (not_a_number k s h set e)
  number-Fault k s (some n) h set e = rw (e, FailsWith) tt

  pub number_or-Fault :
      (k : String) (n : ℤ) (o : Option Text)
      → ((s : Text) → HoldsNumber k s)
      → env k ≡ o
      → FailsWith Fault (number_or env k n)
  unfolding number_or
  number_or-Fault k n none h e = rw (e, FailsWith) tt
  number_or-Fault k n (some s) h e = rw (e, FailsWith) (number-Fault k s _ (h s) e refl)

  pub head_room-Fault : FailsWith Fault (head_room env)
  unfolding head_room
  head_room-Fault =
      >>=-FailsWith Fault (number_or env "BPL_JVM_HEADROOM" (pos 0)) _
        (number_or-Fault _ _ _ old_head_room refl) (λ n e. number_or-Fault _ n _ new_head_room refl)

  pub thread_count-Fault :
      (o : Option Text) → env "BPL_JVM_THREAD_COUNT" ≡ o → FailsWith Fault (thread_count env)
  unfolding thread_count
  thread_count-Fault none e = rw (e, FailsWith) tt
  thread_count-Fault (some s) e =
      rw (e, FailsWith)
        (>>=-FailsWith Fault (number "BPL_JVM_THREAD_COUNT" s) _
          (number-Fault _ s _ (threads s) e refl) (λ n e. tt))

  enabled_unless-Fault :
      (s : Text) (o : Option Bool)
      → env "BPL_LOW_MEMORY_PROFILE_DISABLED" ≡ some s
      → parse_bool s ≡ o
      → FailsWith Fault (enabled_unless s o)
  unfolding enabled_unless
  enabled_unless-Fault s none set e = not_a_bool s set e
  enabled_unless-Fault s (some b) set e = tt

  profile_of-Fault :
      (o : Option Text) → env "BPL_LOW_MEMORY_PROFILE_DISABLED" ≡ o → FailsWith Fault (profile_of o)
  unfolding profile_of
  profile_of-Fault none e = tt
  profile_of-Fault (some s) e = enabled_unless-Fault s _ e refl

  pub low_profile-Fault :
      (total : ℤ) (b : Bool)
      → ltb_ℤ total (pos low_profile_threshold) ≡ b
      → FailsWith Fault (low_profile env total)
  unfolding low_profile
  low_profile-Fault total true e = rw (e, FailsWith) (profile_of-Fault _ refl)
  low_profile-Fault total false e = rw (e, FailsWith) tt

  pub require-Fault :
      (k : String) (o : Option Text) → IsRequired k → env k ≡ o → FailsWith Fault (require env k)
  unfolding require
  require-Fault k none h e = rw (e, FailsWith) (not_set k h e)
  require-Fault k (some s) h e = rw (e, FailsWith) tt

  pub require-eq-ok :
      (k : String) (o : Option Text) {s : Text} → env k ≡ o → require env k ≡ ok s → env k ≡ some s
  unfolding require
  require-eq-ok k none e h = cc
  require-eq-ok k (some t) e h = ground arith
