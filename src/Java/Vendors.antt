-- ===== src/Java/Vendors.antt =====
-- internal/vendors.go and detect.go: the vendors that the buildpack offers, and whether it takes part.
pub mod Offer
use jvm_vendors.Base.{
  Bool, false, not, ◌&&◌, ◌||◌, Option, none, some, List, [], ◌∷◌, if◌then◌else◌, is_nil,
}
use jvm_vendors.Base.Result.{Result, ok, err}
use jvm_vendors.Base.Text.{Text, trim_space, text_eq}
use jvm_vendors.Base.Text.Split.{split}

nonblank : List Text → List Text
nonblank [] = []
nonblank (v ∷ vs) =
    let rest = nonblank vs in let name = trim_space v in if is_nil name then rest else name ∷ rest

-- `LoadJvmVendors` on the value of BP_JVM_VENDORS; an empty value is an error.
unfoldable pub load_jvm_vendors : Text → Option (List Text)
unfolding nonblank
load_jvm_vendors raw = if is_nil raw then none else some (nonblank (split b',' raw))

-- `slices.Contains`
unfoldable pub has : List Text → Text → Bool
has [] v = false
has (w ∷ ws) v = text_eq w v || has ws v

pub data PlanEntry : Type 0 where
  jdk jre native_image_builder : PlanEntry

pub record BuildPlan : Type 0 where
  pub provides : List PlanEntry
  pub requires : List PlanEntry

pub data Detected : Type 0 where
  pass : List BuildPlan → Detected
  fail : Detected

pub data DetectError : Type 0 where
  bad_metadata bad_configuration no_vendors : DetectError

pub offered_plans : List BuildPlan
offered_plans =
    record { provides = jdk ∷ native_image_builder ∷ jre ∷ []; requires = jdk ∷ [] }
    ∷ record { provides = jdk ∷ native_image_builder ∷ []; requires = jdk ∷ [] }
    ∷ record { provides = jdk ∷ jre ∷ []; requires = [] }
    ∷ record { provides = jdk ∷ []; requires = [] }
    ∷ record { provides = jre ∷ []; requires = [] }
    ∷ []

chosen : Text → List Text → Detected
unfolding offered_plans
chosen vendor vendors =
    if not (is_nil vendor) && not (has vendors vendor) then fail else pass offered_plans

chosen_from : Text → Option (List Text) → Result DetectError Detected
unfolding chosen
chosen_from vendor none = err no_vendors
chosen_from vendor (some vendors) = ok (chosen vendor vendors)

-- What the library gives of the buildpack's metadata: the configuration resolver, or an error.
pub data Resolved : Type 0 where
  no_metadata no_resolver : Resolved
  -- the values of BP_JVM_VENDORS and BP_JVM_VENDOR
  resolved : Text → Text → Resolved

-- `Detect`
unfoldable pub detect : Resolved → Result DetectError Detected
unfolding chosen_from
detect no_metadata = err bad_metadata
detect no_resolver = err bad_configuration
detect (resolved vendors vendor) = chosen_from vendor (load_jvm_vendors vendors)
