-- ===== src/Java/Programs/Shipped.antt =====
-- The helpers of the buildpack that is shipped are known to the program that runs them.
use jvm_vendors.Base.{ℕ, ◌≡◌, refl, subst, sym, List, [], ◌∷◌, All, All-append}
use jvm_vendors.Base.Result.{ok}
use jvm_vendors.Versions.{Semver}
use jvm_vendors.Java.Plan.{
  jre_type, Contribution, jdk, jre, jlink, nik, helpers, security_properties, Context,
  standard_helpers, add_custom, contribute_helpers, build,
}
use jvm_vendors.Java.Plan.Shapes.{
  IsRuntime, IsJdk, Shape, jdk_at_most, native, started, not_started, build-Shape,
}
use jvm_vendors.Java.Programs.{
  IsKnown, shipped_build, shipped_custom_helpers, in_context, standard_helpers-IsKnown,
}

module _ {V : Type 0} (sv : Semver V) (other : ℕ → ℕ) {D : Type 0} where
  -- If a layer is that of the helpers, the program knows the name of each.
  abbrev pub HasKnownHelpers : Contribution D → Type 0
  HasKnownHelpers (helpers names) = All IsKnown names
  HasKnownHelpers (jdk d) = Unit
  HasKnownHelpers (jre d t md) = Unit
  HasKnownHelpers (jlink d args explicit md) = Unit
  HasKnownHelpers (nik d e command args) = Unit
  HasKnownHelpers security_properties = Unit

  module _ (c : Context D) where
    IsJdk-HasKnownHelpers :
        (cs : List (Contribution D)) → IsJdk sv other c cs → All HasKnownHelpers cs
    IsJdk-HasKnownHelpers [] h = tt
    IsJdk-HasKnownHelpers (jdk d ∷ []) h = (tt, tt)
    IsJdk-HasKnownHelpers (jdk d ∷ x ∷ cs) h = absurd h
    IsJdk-HasKnownHelpers (jre d t md ∷ cs) h = absurd h
    IsJdk-HasKnownHelpers (jlink d args explicit md ∷ cs) h = absurd h
    IsJdk-HasKnownHelpers (nik d e command args ∷ cs) h = absurd h
    IsJdk-HasKnownHelpers (helpers names ∷ cs) h = absurd h
    IsJdk-HasKnownHelpers (security_properties ∷ cs) h = absurd h

    IsRuntime-HasKnownHelpers :
        (d : D) (x : Contribution D) → IsRuntime sv other c d x → HasKnownHelpers x
    IsRuntime-HasKnownHelpers d (jdk e) h = tt
    IsRuntime-HasKnownHelpers d (jre e t md) h = tt
    IsRuntime-HasKnownHelpers d (jlink e args explicit md) h = tt
    IsRuntime-HasKnownHelpers d (nik e f command args) h = tt
    IsRuntime-HasKnownHelpers d (helpers names) h = absurd h
    IsRuntime-HasKnownHelpers d security_properties h = tt

    contribute_helpers-HasKnownHelpers :
        (d : D)
        → c.custom_helpers ≡ shipped_custom_helpers
        → All HasKnownHelpers (contribute_helpers sv other c d)
    unfolding contribute_helpers
    contribute_helpers-HasKnownHelpers d e = (
      subst (λ names. All IsKnown (add_custom (standard_helpers sv (c.version_of d)) names)) (sym e)
          (standard_helpers-IsKnown sv (c.version_of d)),
      (tt, tt),
    )

    Shape-HasKnownHelpers :
        {cs : List (Contribution D)}
        → c.custom_helpers ≡ shipped_custom_helpers
        → Shape sv other c cs
        → All HasKnownHelpers cs
    Shape-HasKnownHelpers {cs} e (jdk_at_most h) = IsJdk-HasKnownHelpers cs h
    Shape-HasKnownHelpers e (native d f command args h) =
        subst (λ x. All HasKnownHelpers x) (sym h) (tt, tt)
    Shape-HasKnownHelpers e (started front runtime d hf hr h) =
        subst (λ x. All HasKnownHelpers x) (sym h)
          (All-append HasKnownHelpers front (runtime ∷ contribute_helpers sv other c d)
            (IsJdk-HasKnownHelpers front hf)
            (IsRuntime-HasKnownHelpers d runtime hr, contribute_helpers-HasKnownHelpers d e))
    Shape-HasKnownHelpers e (not_started front d md hf hl h) =
        subst (λ x. All HasKnownHelpers x) (sym h)
          (All-append HasKnownHelpers front (jre d jre_type md ∷ [])
            (IsJdk-HasKnownHelpers front hf) (tt, tt))

  -- Whatever the plan, the configuration and the dependencies are, a build of the shipped buildpack
  -- that succeeds gives its layers only helpers whose names the program of the helper layer knows.
  pub build-HasKnownHelpers :
      (c : Context D) {cs : List (Contribution D)}
      → build sv other (in_context shipped_build c) ≡ ok cs
      → All HasKnownHelpers cs
  build-HasKnownHelpers c h =
      let shipped : Context D = in_context shipped_build c in
      Shape-HasKnownHelpers shipped (unfold shipped_build in refl) (build-Shape sv other shipped h)
