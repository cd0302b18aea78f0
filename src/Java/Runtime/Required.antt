-- ===== src/Java/Runtime/Required.antt =====
-- A runtime layer sets what the helpers require.
use jvm_vendors.Base.{
  ℕ, ◌≡◌, ◌⊎◌, inl, inr, refl, true, Option, none, some, List, [], ◌∷◌, ◌++◌, String, All,
}
use jvm_vendors.Base.Text.{Text}
use jvm_vendors.Versions.{Semver}
use jvm_vendors.Java.Runtime.{
  cacerts_path, Setting, default, override, append, RuntimeError, Machine, ConfigJreContext,
  ext_dir, security_file, last_settings, with_providers, with_classes, launch_settings,
  certificates, configured, after_certificates, configure_jre,
}

-- A list of settings has a default for a variable.
unfoldable pub HasDefault : List Setting → String → Type 0
HasDefault [] k = ⊥
HasDefault (default k' v ∷ ss) k = (k ≡ k') ⊎ HasDefault ss k
HasDefault (override k' v ∷ ss) k = HasDefault ss k
HasDefault (append k' d v ∷ ss) k = HasDefault ss k

HasDefault-behind : (xs ys : List Setting) (k : String) → HasDefault ys k → HasDefault (xs ++ ys) k
unfolding HasDefault
HasDefault-behind [] ys k h = h
HasDefault-behind (default k' v ∷ xs) ys k h = inr (HasDefault-behind xs ys k h)
HasDefault-behind (override k' v ∷ xs) ys k h = HasDefault-behind xs ys k h
HasDefault-behind (append k' d v ∷ xs) ys k h = HasDefault-behind xs ys k h

-- The variables that the helpers read, or the JVM's own start.
abbrev pub required_variables : List String
required_variables =
    "BPI_APPLICATION_PATH" ∷ "BPI_JVM_CACERTS" ∷ "BPI_JVM_CLASS_COUNT"
    ∷ "BPI_JVM_SECURITY_PROVIDERS" ∷ "BPI_JVM_VERSION" ∷ "JAVA_HOME" ∷ []

abbrev HasAll : List Setting × Option RuntimeError → Type 0
HasAll (ss, some e) = Unit
HasAll (ss, none) = All (HasDefault ss) required_variables

module _ {V : Type 0} (sv : Semver V) where
  launch-HasAll :
      (m : Machine) (c : ConfigJreContext) (count : Option ℕ)
      (entries : Option (List (Text × Text)))
      → count ≡ m.classes_of c.java_home
      → entries ≡ m.providers_of (security_file sv c)
      → HasAll (launch_settings sv m c)
  unfolding launch_settings with_classes with_providers last_settings HasDefault
  launch-HasAll m c none entries hn he = rw (← hn) tt
  launch-HasAll m c (some n) none hn he = rw (← hn, ← he) tt
  launch-HasAll m c (some n) (some es) hn he =
      rw (← hn, ← he)
        (
          inl refl,
          (
            inr (inl refl),
            (
              inr (inr (inr (inl refl))),
              (
                inr (inr (inr (inr (HasDefault-behind (ext_dir sv c) _ _ (inl refl))))),
                (
                  inr (inr (inl refl)),
                  (
                    inr (inr (inr (inr (HasDefault-behind (ext_dir sv c) _ _ (inr (inl refl)))))),
                    tt,
                  ),
                ),
              ),
            ),
          ),
        )

  HasAll-cases :
      (p : List Setting × Option RuntimeError)
      → HasAll p
      → p.1 ≡ none
      → All (HasDefault p.0) required_variables
  HasAll-cases (ss, some e) h f = cc
  HasAll-cases (ss, none) h f = h

  after_certificates-HasDefault :
      (m : Machine) (c : ConfigJreContext) (e : Option RuntimeError)
      → c.is_launch ≡ true
      → (after_certificates sv m c e).1 ≡ none
      → All (HasDefault (after_certificates sv m c e).0.launch) required_variables
  unfolding after_certificates configured launch_settings ext_dir security_file cacerts_path
  after_certificates-HasDefault m c (some e) launch fine = cc
  after_certificates-HasDefault m c none launch fine =
      rw launch (
        HasAll-cases (launch_settings sv m c) (launch-HasAll m c _ _ refl refl) (rw launch at fine))

  -- A configuration for the start that ends without an error sets the variables that the helpers
  -- read, and JAVA_HOME.
  pub configure_jre-HasDefault :
      (m : Machine) (c : ConfigJreContext)
      → c.is_launch ≡ true
      → (configure_jre sv m c).1 ≡ none
      → All (HasDefault (configure_jre sv m c).0.launch) required_variables
  unfolding configure_jre
  configure_jre-HasDefault m c launch fine =
      after_certificates-HasDefault m c (certificates sv m c) launch fine
