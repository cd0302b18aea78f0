-- ===== src/Java/Plan.antt =====
-- build.go: what the buildpack contributes to an image for the entries of the build plan.
pub mod Helpers
pub mod Shapes
mod Types
use jvm_vendors.Base.{
  ℕ, ◌≡◌, refl, Bool, true, false, not, ◌&&◌, ◌||◌, Option, none, some, List, [], ◌∷◌, ◌++◌,
  if◌then◌else◌, is_nil,
}
use jvm_vendors.Base.Result.{Result, ok, err, ◌>>=◌, map_err}
use jvm_vendors.Base.Text.{Text, codes, lower, text_eq}
use jvm_vendors.Versions.{Semver, is_before_java9, is_before_java17}
use jvm_vendors.Java.Vendors.{has, load_jvm_vendors}
use jvm_vendors.Java.Version.{
  Resolution, found, no_valid_dependencies, failed, is_no_valid, Sources, VersionError,
  get_jvm_version,
}
unfoldable pub use jvm_vendors.Java.Plan.Types.{is_build_contribution, is_launch_contribution}
pub use jvm_vendors.Java.Plan.Types.{
  DistributionType, jdk_type, jre_type, Value, flag, other_value, Metadata, Contribution, jdk, jre,
  jlink, nik, helpers, security_properties, BuildError, bad_plan, bad_library, no_vendors, panics,
  missing_jdk, missing_native, before_java9, missing_jre, no_certificates, bad_arguments,
  no_command, bad_version, NativeImage, PlanEntries, Context,
}

-- A test that fails with an error.
abbrev pub check : Bool → BuildError → Result BuildError Bool
check b e = if b then ok true else err e

unfoldable pub entry_of : {A : Type 0} → Option A → Result BuildError A
entry_of none = err bad_plan
entry_of (some a) = ok a

-- The loop over the custom helpers: it ends at the first that is there already.
unfoldable pub add_custom : List Text → List Text → List Text
add_custom names [] = names
add_custom names (custom ∷ customs) =
    let rest = add_custom (names ++ custom ∷ []) customs in if has names custom then names else rest

unfoldable pub fixed_helpers : List Text
fixed_helpers =
    codes "java-opts"
    ∷ codes "jvm-heap"
    ∷ codes "link-local-dns"
    ∷ codes "memory-calculator"
    ∷ codes "security-providers-configurer"
    ∷ codes "jmx"
    ∷ codes "jfr"
    ∷ codes "openssl-certificate-loader"
    ∷ []

unfoldable pub by_java9 : Bool → List Text
by_java9 true = codes "security-providers-classpath-8" ∷ codes "debug-8" ∷ []
by_java9 false = codes "security-providers-classpath-9" ∷ codes "debug-9" ∷ codes "nmt" ∷ []

unfoldable pub by_java17 : Bool → List Text
by_java17 true = codes "active-processor-count" ∷ []
by_java17 false = []

module _ {V : Type 0} (sv : Semver V) where
  unfoldable pub for_version : Text → List Text
  unfolding by_java9 by_java17
  for_version version =
      by_java9 (is_before_java9 sv version) ++ by_java17 (is_before_java17 sv version)

  unfoldable pub standard_helpers : Text → List Text
  unfolding fixed_helpers for_version
  standard_helpers version = fixed_helpers ++ for_version version

  module _ (other : ℕ → ℕ) {D : Type 0} (c : Context D) where
    -- `contributeHelpers`
    unfoldable pub contribute_helpers : D → List (Contribution D)
    contribute_helpers d =
        helpers (add_custom (standard_helpers (c.version_of d)) c.custom_helpers)
        ∷ security_properties
        ∷ []

    unfoldable pub contribute_jdk : D → Result BuildError (List (Contribution D))
    contribute_jdk d = if c.certificates_ok then ok (jdk d ∷ []) else err no_certificates

    unfoldable pub contribute_jre :
        D → DistributionType → Metadata → Result BuildError (List (Contribution D))
    contribute_jre d t md = if c.certificates_ok then ok (jre d t md ∷ []) else err no_certificates

    -- The layer is made for the build and cached; without a map for the metadata the write panics.
    unfoldable pub contribute_jdk_as_jre : D → Metadata → Result BuildError (List (Contribution D))
    contribute_jdk_as_jre d md =
        if c.jre_metadata_nil
        then err panics
        else contribute_jre d jdk_type
            (record md { build = some (flag true); cache = some (flag true) })

    jlink_layer : D → Metadata → Option (List Text) → Result BuildError (List (Contribution D))
    jlink_layer d md none = err bad_arguments
    jlink_layer d md (some args) =
        if c.certificates_ok
        then ok (jlink d args c.jlink_explicit md ∷ [])
        else err no_certificates

    unfoldable pub contribute_jlink : D → Metadata → Result BuildError (List (Contribution D))
    unfolding jlink_layer
    contribute_jlink d md = jlink_layer d md c.jlink_words

    unfoldable pub contribute_nik : D → D → Result BuildError (List (Contribution D))
    contribute_nik d native_dep =
        if is_nil c.native.custom_command
        then err no_command
        else if c.certificates_ok
        then ok (nik d native_dep c.native.custom_command c.native.custom_args ∷ [])
        else err no_certificates

    unfoldable pub dependency_or_empty : Resolution D → D
    dependency_or_empty (found d) = d
    dependency_or_empty _ = c.empty

    abbrev is_found : Resolution D → Bool
    is_found (found d) = true
    is_found _ = false

    native_image : D → Resolution D → Result BuildError (List (Contribution D))
    native_image jdk_dep (found d) =
        if c.native.bundled_with_jdk then contribute_jdk d else contribute_nik jdk_dep d
    native_image jdk_dep no_valid_dependencies = err missing_native
    native_image jdk_dep failed = err missing_native

    with_jlink : Text → D → Metadata → Result BuildError (List (Contribution D))
    with_jlink v d md =
        if is_before_java9 sv v
        then err before_java9
        else (contribute_jdk d >>= λ first.
            contribute_jlink d md >>= λ second. ok (first ++ (second ++ contribute_helpers d)))

    jdk_as_jre : Bool → D → Metadata → Result BuildError (List (Contribution D))
    jdk_as_jre jdk_missing d md =
        if jdk_missing
        then err missing_jre
        else (contribute_jdk_as_jre d md >>= λ first. ok (first ++ contribute_helpers d))

    separate_jre : D → Metadata → Result BuildError (List (Contribution D))
    separate_jre d md = contribute_jre d jre_type md >>= λ first.
        ok (first ++ (if is_launch_contribution md then contribute_helpers d else []))

    -- The last two steps: a JDK, a JRE, or both.
    separate : Bool → Bool → Metadata → D → D → Result BuildError (List (Contribution D))
    unfolding separate_jre
    separate jdk_required jre_required md jdk_dep jre_dep =
        (if jdk_required then contribute_jdk jdk_dep else ok []) >>= λ first.
        (if jre_required then separate_jre jre_dep md else ok []) >>= λ second. ok (first ++ second)

    is_jre_skipped : Bool
    is_jre_skipped = text_eq (lower other c.jvm_type) (codes "jdk")

    -- From the resolution of the JDK on, for a vendor and a version.
    unfoldable pub contributions :
        (jdk_required jre_required native_required : Bool)
        → Metadata
        → Text
        → Text
        → Result BuildError (List (Contribution D))
    unfolding native_image with_jlink jdk_as_jre separate is_jre_skipped
    contributions jdk_required jre_required native_required md vendor v =
        let jdk_found = c.resolve (codes "jdk-" ++ vendor) v in
        let jre_found = c.resolve (codes "jre-" ++ vendor) v in
        let jdk_dep = dependency_or_empty jdk_found in
        let jre_dep = dependency_or_empty jre_found in
        if jdk_required && not native_required && not (is_found jdk_found)
        then err missing_jdk
        else if native_required
        then native_image jdk_dep (c.resolve (codes "native-image-svm-" ++ vendor) v)
        else if c.jlink_enabled
        then with_jlink v jdk_dep md
        else if jre_required && (is_jre_skipped || is_no_valid jre_found)
        then jdk_as_jre (is_no_valid jdk_found) jdk_dep md
        else separate jdk_required jre_required md jdk_dep jre_dep

    -- BP_JVM_VENDOR, or the first vendor of the buildpack.
    chosen_vendor : Text → Option (List Text) → Result BuildError Text
    chosen_vendor vendor none = err no_vendors
    chosen_vendor (x ∷ vendor) (some vs) = ok (x ∷ vendor)
    chosen_vendor [] (some []) = err panics
    chosen_vendor [] (some (w ∷ vs)) = ok w

    -- From the metadata of the module on, once something is required.
    required :
        (jdk_required jre_required native_required : Bool)
        → Metadata
        → Result BuildError (List (Contribution D))
    unfolding chosen_vendor
    required jdk_required jre_required native_required md =
        check (c.metadata_ok && c.configuration_ok && c.dependencies_ok) bad_library >>= λ _.
        chosen_vendor c.vendor (load_jvm_vendors c.vendors) >>= λ vendor.
        map_err bad_version (get_jvm_version other c.resolve c.sources vendor) >>= λ v.
        check c.cache_ok bad_library >>= λ _.
        contributions jdk_required jre_required native_required md vendor v

    -- `Build`
    unfoldable pub build : Result BuildError (List (Contribution D))
    unfolding required
    build = entry_of c.plan.jdk_required >>= λ jdk_required.
        entry_of c.plan.jre_required >>= λ (jre_required, md).
        entry_of c.plan.native_required >>= λ native_required.
        if not jdk_required && not jre_required && not native_required
        then ok []
        else required jdk_required jre_required native_required md
