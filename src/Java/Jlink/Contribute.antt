-- ===== src/Java/Jlink/Contribute.antt =====
-- JLink.Contribute: the commands, the key store and the environment of the layer.
pub mod Equivalence
mod Tests
use jvm_vendors.Base.{ℕ, Bool, true, false, Option, none, some, List, [], ◌∷◌, ◌++◌, if◌then◌else◌}
use jvm_vendors.Base.FilePath.{join_path, dir_name}
use jvm_vendors.Base.Text.{Text, codes}
use jvm_vendors.Base.Text.Decimal.{decimal}
use jvm_vendors.Java.Plan.{Metadata, is_build_contribution, is_launch_contribution}
use jvm_vendors.Java.Runtime.{
  Setting, default, append, Machine, Configured, RuntimeError, providers_text, no_permissions,
  no_certificates, no_class_count, no_providers, not_removed, no_modules, not_linked,
}
use jvm_vendors.Java.Jlink.{jlink_args}

-- The directory is removed, the modules are listed by a command, and jlink is run.
pub record Commands : Type 0 where
  pub remove_all : Text → Bool
  pub list_modules : Text → Option Text
  pub run : Text → List Text → Bool

-- JLink
pub record JlinkLayer : Type 0 where
  pub application_path : Text
  pub metadata : Metadata
  pub java_version : Text
  pub args : List Text
  pub user_configured : Bool

jdk_command : Text → Text → Text
jdk_command path name = join_path (dir_name path ∷ codes "jdk" ∷ codes "bin" ∷ name ∷ [])

pub cacerts : Text → Text
cacerts path = join_path (path ∷ codes "lib" ∷ codes "security" ∷ codes "cacerts" ∷ [])

security_properties : Text → Text
security_properties path =
    join_path (path ∷ codes "conf" ∷ codes "security" ∷ codes "java.security" ∷ [])

provider_settings : Text → Option (List (Text × Text)) → List Setting × Option RuntimeError
provider_settings path none = ([], some no_providers)
provider_settings path (some entries) = (
  default "BPI_JVM_SECURITY_PROVIDERS" (providers_text entries)
      ∷ default "JAVA_HOME" path
      ∷ default "MALLOC_ARENA_MAX" (codes "2")
      ∷ append "JAVA_TOOL_OPTIONS" (codes " ") (codes "-XX:+ExitOnOutOfMemoryError")
      ∷ [],
  none,
)

class_settings : Machine → Text → Option ℕ → List Setting × Option RuntimeError
unfolding provider_settings security_properties
class_settings m path none = ([], some no_class_count)
class_settings m path (some n) =
    let (rest, e) = provider_settings path (m.providers_of (security_properties path)) in
    (default "BPI_JVM_CLASS_COUNT" (decimal n) ∷ rest, e)

module _ (other : ℕ → ℕ) (m : Machine) (commands : Commands) where
  link : Text → Option (List Text) → Option RuntimeError
  unfolding jdk_command cacerts
  link path none = some no_modules
  link path (some args) =
      if commands.run (jdk_command path (codes "jlink")) args
      then (if m.chmod (cacerts path)
          then (if m.load_certificates (cacerts path) then none else some no_certificates)
          else some no_permissions)
      else some not_linked

  unfoldable pub create : Text → JlinkLayer → Option RuntimeError
  unfolding link
  create path j =
      if commands.remove_all path
      then link path (
          jlink_args other j.user_configured j.args
            (commands.list_modules (jdk_command path (codes "java"))) path)
      else some not_removed

  unfoldable pub jlink_launch : Text → JlinkLayer → List Setting × Option RuntimeError
  unfolding class_settings cacerts
  jlink_launch path j =
      let (rest, e) = class_settings m path (m.classes_of path) in
      (
        default "BPI_APPLICATION_PATH" j.application_path
            ∷ default "BPI_JVM_CACERTS" (cacerts path)
            ∷ default "BPI_JVM_VERSION" j.java_version
            ∷ rest,
        e,
      )

  environment : Text → JlinkLayer → List Setting × Option RuntimeError → Configured
  environment path j (launch, e) = (
    record {
      build = if is_build_contribution j.metadata then default "JAVA_HOME" path ∷ [] else [];
      launch = launch;
    },
    e,
  )

  after_create : Text → JlinkLayer → Option RuntimeError → Configured
  unfolding environment jlink_launch
  after_create path j (some e) = (record { build = []; launch = [] }, some e)
  after_create path j none =
      environment path j
        (if is_launch_contribution j.metadata then jlink_launch path j else ([], none))

  -- JLink.Contribute
  unfoldable pub contribute_jlink : Text → JlinkLayer → Configured
  unfolding create after_create
  contribute_jlink path j = after_create path j (create path j)
