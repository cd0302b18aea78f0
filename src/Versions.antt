-- ===== src/Versions.antt =====
-- versions.go: comparisons with Java versions. The package semver is a parameter: it reads a version,
-- or fails, and compares two versions.
use jvm_vendors.Base.{Bool, false, not, Option, none, some}
use jvm_vendors.Base.Text.{Text, codes}

pub record Semver (V : Type 0) : Type 0 where
  pub new_version : Text → Option V
  pub less_than : V → V → Bool

module _ {V : Type 0} (sv : Semver V) where
  -- The bound is read when the program starts; the package reads every number as a version.
  less_than_bound : V → Option V → Bool
  less_than_bound v none = false
  less_than_bound v (some bound) = sv.less_than v bound

  compare_with : (Bool → Bool) → Text → Option V → Bool
  compare_with decide bound none = false
  compare_with decide bound (some v) = decide (less_than_bound v (sv.new_version bound))

  -- A candidate that is no version is before no version.
  unfoldable pub is_before_java9 : Text → Bool
  unfolding compare_with less_than_bound
  is_before_java9 candidate = compare_with (λ b. b) (codes "9") (sv.new_version candidate)

  unfoldable pub is_before_java17 : Text → Bool
  unfolding compare_with less_than_bound
  is_before_java17 candidate = compare_with (λ b. b) (codes "17") (sv.new_version candidate)

  unfoldable pub is_before_java18 : Text → Bool
  unfolding compare_with less_than_bound
  is_before_java18 candidate = compare_with (λ b. b) (codes "18") (sv.new_version candidate)

  unfoldable pub is_java25_or_later : Text → Bool
  unfolding compare_with less_than_bound
  is_java25_or_later candidate = compare_with not (codes "25") (sv.new_version candidate)
