-- ===== src/Java/Nik.antt =====
-- nik.go: a JDK with a native image kit, which a command installs into it.
use jvm_vendors.Base.{Bool, Option, none, some, List, [], ◌∷◌, ◌++◌, if◌then◌else◌}
use jvm_vendors.Base.FilePath.{join_path}
use jvm_vendors.Base.Text.{Text}
use jvm_vendors.Versions.{Semver}
use jvm_vendors.Java.Runtime.{
  Machine, Configured, RuntimeError, contribute_jdk, no_artifact, not_expanded, no_command,
}

-- The dependencies: the path of the archive in the cache, and whether it is expanded.
pub record Archives (D : Type 0) : Type 0 where
  pub artifact : D → Option Text
  pub extract : Text → Text → Bool

-- NIK
pub record Nik (D : Type 0) : Type 0 where
  pub jdk : D
  pub version : Text
  pub native : Option D
  pub custom_command : Text
  pub custom_args : List Text

module _ {V D : Type 0} (sv : Semver V) (a : Archives D) (m : Machine)
    (execute : Text → List Text → Bool) where
  run_custom : Text → Nik D → Option Text → Option RuntimeError
  run_custom home n none = some no_artifact
  run_custom home n (some archive) =
      if execute (join_path (home ∷ n.custom_command ∷ [])) (n.custom_args ++ archive ∷ [])
      then none
      else some no_command

  install : Text → Nik D → Option D → Option RuntimeError
  unfolding run_custom
  install home n none = none
  install home n (some d) = run_custom home n (a.artifact d)

  with_native : Text → Nik D → Configured → Configured
  unfolding install
  with_native home n (layer, some e) = (layer, some e)
  with_native home n (layer, none) = (layer, install home n n.native)

  expanded : Text → Nik D → Option Text → Configured
  unfolding with_native
  expanded home n none = (record { build = []; launch = [] }, some no_artifact)
  expanded home n (some archive) =
      if a.extract archive home
      then with_native home n (contribute_jdk sv m home n.version)
      else (record { build = []; launch = [] }, some not_expanded)

  -- NIK.Contribute; the settings and the key store are those of JDK.Contribute.
  unfoldable pub contribute_nik : Text → Nik D → Configured
  unfolding expanded
  contribute_nik home n = expanded home n (a.artifact n.jdk)
