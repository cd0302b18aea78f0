-- ===== src/Helper/Launched.antt =====
-- The helpers at the start of a container whose environment comes from the layer of a Java runtime:
-- what ConfigureJRE and JavaSecurityProperties set is what the helpers read.
pub mod Complete
pub mod Providers
mod Tests
use jvm_vendors.Base.{
  ℕ, ◌≡◌, inl, inr, refl, Bool, true, Bool-cases, Option, none, some, List, [], ◌∷◌, ◌++◌, All,
}
use jvm_vendors.Base.Text.{Text, codes}
use jvm_vendors.Base.FilePath.{join_path}
use jvm_vendors.Base.Text.Decimal.{decimal}
use jvm_vendors.Versions.{Semver, is_before_java9}
use jvm_vendors.Java.Runtime.{
  cacerts_path, Setting, default, override, append, RuntimeError, Machine, ConfigJreContext,
  ext_dir, security_file, last_settings, providers_text, with_providers, with_classes,
  launch_settings, certificates, configured, after_certificates, configure_jre,
  contribute_security_properties,
}
use jvm_vendors.Helper.Env.{Env}

-- A setting that is a default is the value of its variable: that is so if nothing else sets it.
abbrev pub IsSetIn : Env → Setting → Type 0
IsSetIn env (default k v) = env k ≡ some v
IsSetIn env (override k v) = Unit
IsSetIn env (append k d v) = Unit

-- The path of the empty properties file, which the layer of that name sets.
pub security_properties-set :
    (touch : Text → Bool) (home : Text) (env : Env)
    → (contribute_security_properties touch home).1 ≡ none
    → All (IsSetIn env) (contribute_security_properties touch home).0.launch
    → (path : Text) × (env "JAVA_SECURITY_PROPERTIES" ≡ some path)
unfolding contribute_security_properties
security_properties-set touch home env fine set =
    elim (Bool-cases (touch (join_path (home ∷ codes "java-security.properties" ∷ [])))) [
      | inl e ↦ (_, (rw e at set).1.0)
      | inr e ↦ cc (rw e at fine)
    ]

All-behind :
    (env : Env) (xs ys : List Setting) → All (IsSetIn env) (xs ++ ys) → All (IsSetIn env) ys
All-behind env [] ys h = h
All-behind env (x ∷ xs) ys (h, hs) = All-behind env xs ys hs

module _ {V : Type 0} (sv : Semver V) where
  -- The variables for the helpers, with what the runtime layer has found.
  pub record IsStarted (m : Machine) (c : ConfigJreContext) (env : Env) : Type 0 where
    pub application : env "BPI_APPLICATION_PATH" ≡ some c.application_path
    pub cacerts : env "BPI_JVM_CACERTS" ≡ some (cacerts_path sv c)
    pub classes : ℕ
    pub classes_found : m.classes_of c.java_home ≡ some classes
    pub class_count : env "BPI_JVM_CLASS_COUNT" ≡ some (decimal classes)
    pub providers : List (Text × Text)
    pub providers_found : m.providers_of (security_file sv c) ≡ some providers
    pub ext_set :
        is_before_java9 sv c.java_version ≡ true → (dir : Text) × (env "BPI_JVM_EXT_DIR" ≡ some dir)
    pub security_providers : env "BPI_JVM_SECURITY_PROVIDERS" ≡ some (providers_text providers)

  ext_dir-set :
      (c : ConfigJreContext) (env : Env) (ys : List Setting)
      → All (IsSetIn env) (ext_dir sv c ++ ys)
      → is_before_java9 sv c.java_version ≡ true
      → (dir : Text) × (env "BPI_JVM_EXT_DIR" ≡ some dir)
  unfolding ext_dir
  ext_dir-set c env ys h old = (_, (rw old at h).0)

  launch_settings-IsStarted :
      (m : Machine) (c : ConfigJreContext) (env : Env) (count : Option ℕ)
      (entries : Option (List (Text × Text)))
      → m.classes_of c.java_home ≡ count
      → m.providers_of (security_file sv c) ≡ entries
      → (launch_settings sv m c).1 ≡ none
      → All (IsSetIn env) (launch_settings sv m c).0
      → IsStarted m c env
  unfolding launch_settings with_classes with_providers last_settings
  launch_settings-IsStarted m c env none entries hn he fine set = cc (rw hn at fine)
  launch_settings-IsStarted m c env (some n) none hn he fine set = cc (rw (hn, he) at fine)
  launch_settings-IsStarted m c env (some n) (some es) hn he fine set =
      let (app, (certs, (version, (count, rest)))) = rw (hn, he) at set in
      let last = All-behind env (ext_dir sv c) (last_settings sv c es) rest in
      record {
        application = app;
        cacerts = certs;
        classes = n;
        classes_found = hn;
        class_count = count;
        ext_set = ext_dir-set c env (last_settings sv c es) rest;
        providers = es;
        providers_found = he;
        security_providers = last.0;
      }

  after_certificates-IsStarted :
      (m : Machine) (c : ConfigJreContext) (env : Env) (e : Option RuntimeError)
      → c.is_launch ≡ true
      → (after_certificates sv m c e).1 ≡ none
      → All (IsSetIn env) (after_certificates sv m c e).0.launch
      → IsStarted m c env
  unfolding after_certificates configured launch_settings ext_dir security_file cacerts_path
  after_certificates-IsStarted m c env (some e) launch fine set = cc
  after_certificates-IsStarted m c env none launch fine set =
      launch_settings-IsStarted m c env _ _ refl refl (rw launch at fine) (rw launch at set)

  pub configure_jre-IsStarted :
      (m : Machine) (c : ConfigJreContext) (env : Env)
      → c.is_launch ≡ true
      → (configure_jre sv m c).1 ≡ none
      → All (IsSetIn env) (configure_jre sv m c).0.launch
      → IsStarted m c env
  unfolding configure_jre
  configure_jre-IsStarted m c env launch fine set =
      after_certificates-IsStarted m c env (certificates sv m c) launch fine set
