-- ===== src/Java/Programs/Tests.antt =====
-- A build of the shipped buildpack: dependencies are versions, versions are numbers.
use jvm_vendors.Base.{ℕ, ◌≡◌, refl, true, false, none, some, List, [], ◌∷◌, All, if◌then◌else◌, ltb}
use jvm_vendors.Base.Files.{not_found}
use jvm_vendors.Base.Result.{ok}
use jvm_vendors.Base.Text.{Text, codes, is_space, lower, text_eq, trim_space}
use jvm_vendors.Base.Text.Split.{split}
use jvm_vendors.Base.Text.Decimal.{value}
use jvm_vendors.Versions.{Semver}
use jvm_vendors.Java.Vendors.{load_jvm_vendors}
use jvm_vendors.Java.Version.{Resolution, found, no_valid_dependencies, get_jvm_version}
use jvm_vendors.Java.Plan.{
  jre_type, flag, Metadata, Contribution, jre, helpers, security_properties, Context, entry_of,
  add_custom, standard_helpers, contribute_helpers, contribute_jre, dependency_or_empty,
  contributions, build, is_launch_contribution,
}
use jvm_vendors.Java.Programs.{shipped_build, shipped_custom_helpers, in_context}
use jvm_vendors.Java.Programs.Shipped.{HasKnownHelpers, build-HasKnownHelpers}

abbrev versions : Semver ℕ
versions = record { new_version = λ s. some (value s); less_than = ltb }

abbrev same : ℕ → ℕ
same c = c

-- Only the JRE of version 18 is there.
abbrev only_18 : Text → Text → Resolution ℕ
only_18 name version = if text_eq name (codes "jre-v") then found 18 else no_valid_dependencies

abbrev at_launch : Metadata
at_launch = record { build = none; cache = none; launch = some (flag true) }

-- A build that requires a JRE at launch.
abbrev context : Context ℕ
context = record {
  plan = record {
    jdk_required = some false;
    jre_required = some (true, at_launch);
    native_required = some false;
  };
  jre_metadata_nil = false;
  metadata_ok = true;
  configuration_ok = true;
  dependencies_ok = true;
  cache_ok = true;
  vendors = codes "v";
  vendor = [];
  jvm_type = codes "JRE";
  jlink_enabled = false;
  jlink_words = some [];
  jlink_explicit = false;
  certificates_ok = true;
  sources = record {
    configured = codes "18";
    explicit = true;
    sdkmanrc = not_found;
    manifest = none;
  };
  resolve = only_18;
  empty = 0;
  version_of = λ d. codes "18";
  custom_helpers = [];
  native = record { bundled_with_jdk = false; custom_command = []; custom_args = [] };
}

abbrev layers : List (Contribution ℕ)
layers =
    jre 18 jre_type at_launch
    ∷ helpers (add_custom (standard_helpers versions (codes "18")) shipped_custom_helpers)
    ∷ security_properties
    ∷ []

built : build versions same (in_context shipped_build context) ≡ ok layers
unfolding build entry_of load_jvm_vendors split trim_space is_space get_jvm_version contributions
    text_eq contribute_jre dependency_or_empty is_launch_contribution contribute_helpers lower
    shipped_build
built = refl

build-HasKnownHelpers_example : All (HasKnownHelpers versions same) layers
build-HasKnownHelpers_example = build-HasKnownHelpers versions same context built
