-- ===== src/Java/Jlink/Contribute/Equivalence.antt =====
-- A layer of jlink is configured as a JRE is.
use jvm_vendors.Base.{
  ℕ, ◌≡◌, refl, ap, Bool, true, false, Option, none, some, List, [], ◌∷◌, if◌then◌else◌,
}
use jvm_vendors.Base.Text.{Text, codes}
use jvm_vendors.Base.Text.Decimal.{decimal}
use jvm_vendors.Versions.{Semver, is_before_java9}
use jvm_vendors.Java.Plan.{is_build_contribution, is_launch_contribution, jre_type}
use jvm_vendors.Java.Runtime.{
  Setting, default, Machine, ConfigJreContext, RuntimeError, Configured, configure_jre,
  launch_settings, cacerts_path, security_file, ext_dir, certificates, after_certificates,
  configured, with_classes, with_providers, last_settings, no_certificates, no_permissions,
  not_linked, not_removed,
}
use jvm_vendors.Java.Jlink.{jlink_args}
use jvm_vendors.Java.Jlink.Contribute.{
  Commands, JlinkLayer, cacerts, create, link, jlink_launch, class_settings, provider_settings,
  security_properties, contribute_jlink, after_create, environment, jdk_command,
}

-- The context of a JRE at the path of the layer.
abbrev pub jre_context : Text → JlinkLayer → ConfigJreContext
jre_context path j = record {
  java_home = path;
  java_version = j.java_version;
  application_path = j.application_path;
  is_build = is_build_contribution j.metadata;
  is_launch = is_launch_contribution j.metadata;
  skip_certs = false;
  dist_type = jre_type;
}

module _ (other : ℕ → ℕ) (m : Machine) (commands : Commands) where
  Loaded : Text → Type 0
  Loaded path = (m.chmod (cacerts path) ≡ true) × (m.load_certificates (cacerts path) ≡ true)

  link-eq-none :
      (path : Text) (args : Option (List Text))
      → link other m commands path args ≡ none
      → Loaded path
  unfolding link Loaded
  link-eq-none path none h = cc
  link-eq-none path (some args) h =
      go (commands.run (jdk_command path (codes "jlink")) args) (m.chmod (cacerts path))
        (m.load_certificates (cacerts path)) h
    where
      go :
          (r c l : Bool)
          → (if r
              then (if c then (if l then none else some no_certificates) else some no_permissions)
              else some not_linked)
            ≡ none
          → (c ≡ true) × (l ≡ true)
      go true true true e = (refl, refl)
      go true true false e = cc
      go true false l e = cc
      go false c l e = cc

  create-eq-none :
      (path : Text) (j : JlinkLayer) → create other m commands path j ≡ none → Loaded path
  unfolding create
  create-eq-none path j h =
      go (commands.remove_all path)
        (jlink_args other j.user_configured j.args
          (commands.list_modules (jdk_command path (codes "java"))) path)
        h
    where
      go :
          (r : Bool) (args : Option (List Text))
          → (if r then link other m commands path args else some not_removed) ≡ none
          → Loaded path
      go true args e = link-eq-none path args e
      go false args e = cc

  module _ {V : Type 0} (sv : Semver V) (path : Text) (j : JlinkLayer)
      (new : is_before_java9 sv j.java_version ≡ false) where
    provider_settings-with_providers :
        (o : Option (List (Text × Text)))
        → provider_settings path o ≡ with_providers sv (jre_context path j) o
    unfolding provider_settings with_providers last_settings
    provider_settings-with_providers none = refl
    provider_settings-with_providers (some entries) = refl

    class_settings-with_classes :
        (n : Option ℕ) → class_settings m path n ≡ with_classes sv m (jre_context path j) n
    unfolding class_settings with_classes security_file ext_dir security_properties
    class_settings-with_classes none = refl
    class_settings-with_classes (some n) = rw new (
        ap (λ r. (default "BPI_JVM_CLASS_COUNT" (decimal n) ∷ r.0, r.1))
          (provider_settings-with_providers (m.providers_of (security_properties path))))

    jlink_launch-launch_settings :
        jlink_launch other m commands path j ≡ launch_settings sv m (jre_context path j)
    unfolding jlink_launch launch_settings cacerts cacerts_path
    jlink_launch-launch_settings = rw (new, class_settings-with_classes (m.classes_of path)) refl

    certificates-none : Loaded path → certificates sv m (jre_context path j) ≡ none
    unfolding certificates Loaded cacerts_path cacerts
    certificates-none (c, l) = rw (new, c, l) refl

    abbrev SameLaunch : Configured → Configured → Type 0
    SameLaunch x y = (x.0.launch ≡ y.0.launch) × (x.1 ≡ y.1)

    environment-SameLaunch :
        (x y : List Setting × Option RuntimeError)
        → x ≡ y
        → SameLaunch (environment other m commands path j x) (configured sv (jre_context path j) y)
    unfolding environment configured
    environment-SameLaunch (launch, e) (launch', e') h = (ap (λ r. r.0) h, ap (λ r. r.1) h)

    after_create-SameLaunch :
        SameLaunch
          (after_create other m commands path j none)
          (after_certificates sv m (jre_context path j) none)
    unfolding after_create after_certificates
    after_create-SameLaunch =
        let none_set : List Setting × Option RuntimeError = ([], none) in
        let launched = is_launch_contribution j.metadata in
        environment-SameLaunch (if launched then jlink_launch other m commands path j else none_set)
          (if launched then launch_settings sv m (jre_context path j) else none_set)
          (ap (λ s. if launched then s else none_set) jlink_launch-launch_settings)

    -- Once jlink has made the runtime and the certificates are in its key store, and the version is
    -- not before Java 9, the launch environment and the outcome are those of ConfigureJRE for a JRE
    -- at the path of the layer.
    pub contribute_jlink-configure_jre :
        create other m commands path j ≡ none
        → ((contribute_jlink other m commands path j).0.launch
            ≡ (configure_jre sv m (jre_context path j)).0.launch)
          × ((contribute_jlink other m commands path j).1
              ≡ (configure_jre sv m (jre_context path j)).1)
    unfolding contribute_jlink configure_jre
    contribute_jlink-configure_jre h =
        rw (h, certificates-none (create-eq-none path j h)) after_create-SameLaunch
