-- ===== src/Java/Plan/Types.antt =====
-- build.go, contributions.go and distribution_type.go: the types of a build.
use jvm_vendors.Base.{Bool, false, Option, some, List}
use jvm_vendors.Base.Text.{Text}
use jvm_vendors.Java.Version.{Resolution, Sources, VersionError}

pub data DistributionType : Type 0 where
  jdk_type jre_type : DistributionType

-- A value of the metadata of a plan entry.
pub data Value : Type 0 where
  flag : Bool → Value
  other_value : Value

-- The values that the program reads or writes.
pub record Metadata : Type 0 where
  pub build : Option Value
  pub cache : Option Value
  pub launch : Option Value

is_true : Option Value → Bool
is_true (some (flag b)) = b
is_true _ = false

unfoldable pub is_build_contribution : Metadata → Bool
unfolding is_true
is_build_contribution md = is_true md.build

unfoldable pub is_launch_contribution : Metadata → Bool
unfolding is_true
is_launch_contribution md = is_true md.launch

-- The layers, with what they are made from. `security_properties` is JavaSecurityProperties.
pub data Contribution (D : Type 0) : Type 0 where
  jdk : D → Contribution D
  jre : D → DistributionType → Metadata → Contribution D
  jlink : D → List Text → Bool → Metadata → Contribution D
  nik : D → D → Text → List Text → Contribution D
  helpers : List Text → Contribution D
  security_properties : Contribution D

-- `panics` is the index out of range for an empty list of vendors, or the write into a nil map.
pub data BuildError : Type 0 where
  bad_plan bad_library no_vendors panics missing_jdk missing_native before_java9 : BuildError
  missing_jre no_certificates bad_arguments no_command : BuildError
  bad_version : VersionError → BuildError

pub record NativeImage : Type 0 where
  pub bundled_with_jdk : Bool
  pub custom_command : Text
  pub custom_args : List Text

-- The plan entries jdk, jre (with its metadata) and native-image-builder: whether they are required.
-- none is an entry that cannot be resolved.
pub record PlanEntries : Type 0 where
  pub jdk_required : Option Bool
  pub jre_required : Option (Bool × Metadata)
  pub native_required : Option Bool

-- What the library makes of the context: the module metadata, the resolvers and the cache can fail;
-- the values of the configuration; the words of BP_JVM_JLINK_ARGS and whether it is set; whether the
-- metadata of the certificates can be made.
pub record Context (D : Type 0) : Type 0 where
  pub plan : PlanEntries
  -- whether the entry jre has no map for its metadata
  pub jre_metadata_nil : Bool
  pub metadata_ok : Bool
  pub configuration_ok : Bool
  pub dependencies_ok : Bool
  pub cache_ok : Bool
  pub vendors : Text
  pub vendor : Text
  pub jvm_type : Text
  pub jlink_enabled : Bool
  pub jlink_words : Option (List Text)
  pub jlink_explicit : Bool
  pub certificates_ok : Bool
  pub sources : Sources
  pub resolve : Text → Text → Resolution D
  -- the dependency that Go has beside an error, and its version
  pub empty : D
  pub version_of : D → Text
  pub custom_helpers : List Text
  pub native : NativeImage
