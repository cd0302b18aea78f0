-- ===== src/Java/Runtime.antt =====
-- jre.go, jdk.go and java_security_properties.go: the environment that the layer of a Java runtime
-- sets up. What fails on the way ends it; the settings made before that stay in the layer.
pub mod Order
pub mod Required
use jvm_vendors.Base.{
  ℕ, ◌≡◌, refl, Bool, true, false, not, ◌&&◌, Option, none, some, List, [], ◌∷◌, ◌++◌, String,
  if◌then◌else◌, map,
}
use jvm_vendors.Base.Text.{Text, codes, join}
use jvm_vendors.Base.Text.Decimal.{decimal}
use jvm_vendors.Base.Text.Sorting.{sort}
use jvm_vendors.Base.FilePath.{join_path}
use jvm_vendors.Versions.{Semver, is_before_java9}
use jvm_vendors.Java.Plan.{DistributionType, jdk_type, jre_type}

-- `Environment.Default`, `Override` and `Append`: the name of the variable, and the value; for
-- `append` the delimiter stands before the value.
pub data Setting : Type 0 where
  default override : String → Text → Setting
  append : String → Text → Text → Setting

pub record Layer : Type 0 where
  pub build : List Setting
  pub launch : List Setting

pub data RuntimeError : Type 0 where
  no_permissions no_certificates no_class_count no_providers cannot_touch : RuntimeError
  not_removed no_modules not_linked no_artifact not_expanded no_command : RuntimeError

-- The outcome: the settings, and the error that ended it.
abbrev pub Configured : Type 0
Configured = Layer × Option RuntimeError

-- What the file system and the other packages do for a path: change its permissions, load the
-- certificates into it, count its classes, and read the entries of the properties in it that start
-- with `security.provider.`, without that prefix, in any order.
pub record Machine : Type 0 where
  pub chmod : Text → Bool
  pub load_certificates : Text → Bool
  pub classes_of : Text → Option ℕ
  pub providers_of : Text → Option (List (Text × Text))

pub record ConfigJreContext : Type 0 where
  pub java_home : Text
  pub java_version : Text
  pub application_path : Text
  pub is_build : Bool
  pub is_launch : Bool
  pub skip_certs : Bool
  pub dist_type : DistributionType

abbrev pub is_jdk : DistributionType → Bool
is_jdk jdk_type = true
is_jdk jre_type = false

unfoldable pub indexed_provider : Text × Text → Text
indexed_provider (k, v) = k ++ b'|' ∷ v

-- The providers with their numbers, sorted as texts.
unfoldable pub providers_text : List (Text × Text) → Text
unfolding indexed_provider
providers_text entries = join (sort (map indexed_provider entries)) (codes " ")

module _ {V : Type 0} (sv : Semver V) where
  unfoldable pub cacerts_path : ConfigJreContext → Text
  cacerts_path c =
      if is_before_java9 sv c.java_version && is_jdk c.dist_type
      then join_path
          (c.java_home ∷ codes "jre" ∷ codes "lib" ∷ codes "security" ∷ codes "cacerts" ∷ [])
      else join_path (c.java_home ∷ codes "lib" ∷ codes "security" ∷ codes "cacerts" ∷ [])

  -- Of Java 8 only.
  unfoldable pub ext_dir : ConfigJreContext → List Setting
  ext_dir c =
      if is_before_java9 sv c.java_version
      then default "BPI_JVM_EXT_DIR" (
          if is_jdk c.dist_type
          then join_path (c.java_home ∷ codes "jre" ∷ codes "lib" ∷ codes "ext" ∷ [])
          else join_path (c.java_home ∷ codes "lib" ∷ codes "ext" ∷ []))
        ∷ []
      else []

  unfoldable pub security_file : ConfigJreContext → Text
  security_file c =
      if is_before_java9 sv c.java_version
      then (if is_jdk c.dist_type
          then join_path (
              c.java_home
              ∷ codes "jre"
              ∷ codes "lib"
              ∷ codes "security"
              ∷ codes "java.security"
              ∷ [])
          else join_path
              (c.java_home ∷ codes "lib" ∷ codes "security" ∷ codes "java.security" ∷ []))
      else join_path (c.java_home ∷ codes "conf" ∷ codes "security" ∷ codes "java.security" ∷ [])

  unfoldable pub last_settings : ConfigJreContext → List (Text × Text) → List Setting
  last_settings c entries =
      default "BPI_JVM_SECURITY_PROVIDERS" (providers_text entries)
      ∷ default "JAVA_HOME" c.java_home
      ∷ default "MALLOC_ARENA_MAX" (codes "2")
      ∷ append "JAVA_TOOL_OPTIONS" (codes " ") (codes "-XX:+ExitOnOutOfMemoryError")
      ∷ []

  unfoldable pub with_providers :
      ConfigJreContext → Option (List (Text × Text)) → List Setting × Option RuntimeError
  unfolding last_settings
  with_providers c none = ([], some no_providers)
  with_providers c (some entries) = (last_settings c entries, none)

  unfoldable pub with_classes :
      Machine → ConfigJreContext → Option ℕ → List Setting × Option RuntimeError
  unfolding with_providers
  with_classes m c none = ([], some no_class_count)
  with_classes m c (some n) =
      let (rest, e) = with_providers c (m.providers_of (security_file c)) in
      (default "BPI_JVM_CLASS_COUNT" (decimal n) ∷ (ext_dir c ++ rest), e)

  unfoldable pub launch_settings : Machine → ConfigJreContext → List Setting × Option RuntimeError
  unfolding with_classes
  launch_settings m c =
      let (rest, e) = with_classes m c (m.classes_of c.java_home) in
      (
        default "BPI_APPLICATION_PATH" c.application_path
            ∷ default "BPI_JVM_CACERTS" (cacerts_path c)
            ∷ default "BPI_JVM_VERSION" c.java_version
            ∷ rest,
        e,
      )

  unfoldable pub build_settings : ConfigJreContext → List Setting
  build_settings c =
      (if c.skip_certs then override "BP_RUNTIME_CERT_BINDING_DISABLED" (codes "true") ∷ [] else [])
      ++ (if c.is_build
          then default "JAVA_HOME" c.java_home ∷ default "JRE_HOME" c.java_home ∷ []
          else [])

  unfoldable pub certificates : Machine → ConfigJreContext → Option RuntimeError
  certificates m c =
      let path = cacerts_path c in
      if c.skip_certs
      then none
      else if m.chmod path
      then (if m.load_certificates path then none else some no_certificates)
      else some no_permissions

  unfoldable pub configured : ConfigJreContext → List Setting × Option RuntimeError → Configured
  configured c (launch, e) = (record { build = build_settings c; launch = launch }, e)

  unfoldable pub after_certificates : Machine → ConfigJreContext → Option RuntimeError → Configured
  unfolding configured
  after_certificates m c (some e) = (record { build = []; launch = [] }, some e)
  after_certificates m c none =
      configured c (if c.is_launch then launch_settings m c else ([], none))

  -- `ConfigureJRE`
  unfoldable pub configure_jre : Machine → ConfigJreContext → Configured
  unfolding certificates after_certificates
  configure_jre m c = after_certificates m c (certificates m c)

  key_store_path : Text → Text → Text
  key_store_path home version =
      if is_before_java9 sv version
      then join_path (home ∷ codes "jre" ∷ codes "lib" ∷ codes "security" ∷ codes "cacerts" ∷ [])
      else join_path (home ∷ codes "lib" ∷ codes "security" ∷ codes "cacerts" ∷ [])

  jdk_error : Machine → Text → Option RuntimeError
  jdk_error m path =
      if m.chmod path
      then (if m.load_certificates path then none else some no_certificates)
      else some no_permissions

  -- `JDK.Contribute`, after the archive is expanded to the path of the layer.
  unfoldable pub contribute_jdk : Machine → Text → Text → Configured
  unfolding key_store_path jdk_error
  contribute_jdk m home version = (
    record { build = override "JAVA_HOME" home ∷ override "JDK_HOME" home ∷ []; launch = [] },
    jdk_error m (key_store_path home version),
  )

-- `JavaSecurityProperties.Contribute`; whether the empty file can be written.
unfoldable pub contribute_security_properties : (Text → Bool) → Text → Configured
contribute_security_properties touch home =
    let file = join_path (home ∷ codes "java-security.properties" ∷ []) in
    if touch file
    then (
      record {
        build = [];
        launch =
            append "JAVA_TOOL_OPTIONS" (codes " ") (codes "-Djava.security.properties=" ++ file)
            ∷ default "JAVA_SECURITY_PROPERTIES" file
            ∷ [];
      },
      none,
    )
    else (record { build = []; launch = [] }, some cannot_touch)
