-- ===== src/Helper/Launched/Providers.antt =====
-- The security providers of a runtime, from its properties to those that the JVM is started with.
use jvm_vendors.Base.{Bool, ◌≡◌, ap, ◌∙◌, true, none, some, List, ◌∷◌, All}
use jvm_vendors.Base.Text.{Text}
use jvm_vendors.Base.Text.Split.{split}
use jvm_vendors.Versions.{Semver}
use jvm_vendors.Java.Runtime.{
  Machine, ConfigJreContext, security_file, providers_text, configure_jre,
  contribute_security_properties,
}
use jvm_vendors.Helper.Env.{Env}
use jvm_vendors.Helper.Providers.{PropertiesFile, execute}
use jvm_vendors.Helper.Providers.Appended.{
  Appends, IsRecorded, IsPlaceable, TakesWrites, execute-Appends,
}
use jvm_vendors.Helper.Launched.{
  IsSetIn, IsStarted, configure_jre-IsStarted, security_properties-set,
}

module _ {V : Type 0} (sv : Semver V) where
  recorded-set :
      (m : Machine) (c : ConfigJreContext) (env : Env) (entries : List (Text × Text))
      → IsStarted sv m c env
      → m.providers_of (security_file sv c) ≡ some entries
      → env "BPI_JVM_SECURITY_PROVIDERS" ≡ some (providers_text entries)
  recorded-set m c env entries st found =
      let e : st.providers ≡ entries = cc (st.providers_found, found) in
      st.security_providers ∙ ap (λ es. some (providers_text es)) e

  -- If ConfigureJRE for the start and the layer of the security properties end without an error, the
  -- environment has what they set by default, and the properties of the runtime hold at least one
  -- provider, each under a number from 1 on that fits an int and with a name of word characters only (so
  -- without an argument), then the configurer with entries of the user, whose indexes are from 1 on and
  -- fit an int, succeeds on a properties file that takes all writes. It appends a block of numbered lines
  -- for the providers of the runtime and those of the user, each as often as it is named there.
  pub configure_jre-Appends :
      (m : Machine) (c : ConfigJreContext) (touch : Text → Bool) (home : Text) (env : Env)
      (file : PropertiesFile) (e : Text × Text) (entries : List (Text × Text)) (added : Text)
      → c.is_launch ≡ true
      → (configure_jre sv m c).1 ≡ none
      → (contribute_security_properties touch home).1 ≡ none
      → All (IsSetIn env) (configure_jre sv m c).0.launch
      → All (IsSetIn env) (contribute_security_properties touch home).0.launch
      → m.providers_of (security_file sv c) ≡ some (e ∷ entries)
      → All IsRecorded (e ∷ entries)
      → env "SECURITY_PROVIDERS" ≡ some added
      → All IsPlaceable (split b' ' added)
      → TakesWrites file
      → Appends (e ∷ entries) added (execute env file)
  configure_jre-Appends m c touch home env file e entries added launch fine touched set also found
        recorded asked placeable takes =
      let st = configure_jre-IsStarted sv m c env launch fine set in
      let (path, secured) = security_properties-set touch home env touched also in
      execute-Appends env file e entries added path asked
        (recorded-set m c env (e ∷ entries) st found) secured recorded placeable takes
