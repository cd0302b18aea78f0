-- ===== src/Helper/Launched/Complete.antt =====
-- No helper lacks a variable at the start of a container whose environment a runtime layer sets.
use jvm_vendors.Base.{
  ℕ, ◌≡◌, ◌≢◌, ◌<◌, ◌^◌, inl, inr, refl, Bool, true, Bool-cases, if◌then◌else◌, Option, none, some,
  List, String, All,
}
use jvm_vendors.Base.Float.{Float64}
use jvm_vendors.Base.Result.{Result, FailsWith, FailsWith-imp}
use jvm_vendors.Base.Text.{Text}
use jvm_vendors.Base.Text.Decimal.{decimal}
use jvm_vendors.Base.Text.Numbers.{atoi, atoi-decimal}
use jvm_vendors.Versions.{Semver, is_before_java9}
use jvm_vendors.Java.Runtime.{
  Machine, ConfigJreContext, configure_jre, contribute_security_properties,
}
use jvm_vendors.Helper.Env.{Env, Shellwords, Variables, HelperError, Sherpa, NamesNone}
use jvm_vendors.Helper.Memory.{execute}
use jvm_vendors.Helper.Memory.Faults.Execute.{execute-FailsWith}
use jvm_vendors.Helper.Memory.Faults.{
  IsRequired, path_required, count_required, HoldsNumber, Fault, not_set, not_a_number,
  not_a_percentage, not_a_bool, not_words, no_agents, no_application, not_calculated,
}
use jvm_vendors.Helper.Providers
use jvm_vendors.Helper.Providers.{ProviderError, PropertiesFile}
use jvm_vendors.Helper.TrustStore
use jvm_vendors.Helper.TrustStore.{Stores, Loader, CopyFile}
use jvm_vendors.Helper.Dns
use jvm_vendors.Helper.Dns.{Appendable}
use jvm_vendors.Helper.Options.{security_providers_classpath_8, security_providers_classpath_9}
use jvm_vendors.Helper.Memory.Limits.{LimitFiles}
use jvm_vendors.Helper.Memory.ClassCount.{MemoryError, missing, bad, ClassFiles}
use jvm_vendors.Helper.Launched.{
  IsSetIn, IsStarted, configure_jre-IsStarted, security_properties-set,
}
use jvm_vendors.Helper.Providers.Faults as ProvidersFaults
use jvm_vendors.Helper.TrustStore.Faults as TrustStoreFaults
use jvm_vendors.Helper.Dns.Faults as DnsFaults

-- The errors for which the variables of the layers are not the reason: no variable is missing, and the
-- class count of the runtime can be read.
abbrev pub IsUnrelated : MemoryError → Type 0
IsUnrelated (missing k) = ⊥
IsUnrelated (bad k s) = k ≢ "BPI_JVM_CLASS_COUNT"
IsUnrelated _ = Unit

adjustment-ne-count : ◌≢◌ {A = String} "BPL_JVM_CLASS_ADJUSTMENT" "BPI_JVM_CLASS_COUNT"
adjustment-ne-count = λ f. cc

profile-ne-count : ◌≢◌ {A = String} "BPL_LOW_MEMORY_PROFILE_DISABLED" "BPI_JVM_CLASS_COUNT"
profile-ne-count = λ f. cc

module _ {V : Type 0} (sv : Semver V) where
  IsRequired-some :
      (m : Machine) (c : ConfigJreContext) (env : Env) (k : String)
      → IsStarted sv m c env
      → IsRequired k
      → env k ≢ none
  IsRequired-some m c env _ st path_required = λ h. cc (st.application)
  IsRequired-some m c env _ st count_required = λ h. cc (st.class_count)

  class_count-atoi :
      (m : Machine) (c : ConfigJreContext) (env : Env) (s : Text)
      → (st : IsStarted sv m c env) → st.classes < 2 ^ 63
      → env "BPI_JVM_CLASS_COUNT" ≡ some s
      → atoi s ≢ none
  class_count-atoi m c env s st small set h =
      let e : decimal st.classes ≡ s = cc (st.class_count, set) in
      cc (atoi-decimal st.classes small, e, h)

  HoldsNumber-IsUnrelated :
      (m : Machine) (c : ConfigJreContext) (env : Env) (k : String) (s : Text)
      → (st : IsStarted sv m c env) → st.classes < 2 ^ 63
      → HoldsNumber k s
      → env k ≡ some s
      → atoi s ≡ none
      → IsUnrelated (bad k s)
  HoldsNumber-IsUnrelated m c env k s st small h set unread =
      λ f. class_count-atoi m c env s st small (cc (set, f)) unread

  Fault-IsUnrelated :
      {F : Type 0} (fl : Float64 F) (shellwords : Shellwords) (files : ClassFiles)
      (limits : LimitFiles) (env : Env) {e : MemoryError}
      → ((k : String) → IsRequired k → env k ≢ none)
      → ((k : String) (s : Text)
          → HoldsNumber k s
          → env k ≡ some s
          → atoi s ≡ none
          → IsUnrelated (bad k s))
      → Fault fl sv shellwords files limits env e
      → IsUnrelated e
  Fault-IsUnrelated fl shellwords files limits env h n (not_set k r unset) = absurd (h k r unset)
  Fault-IsUnrelated fl shellwords files limits env h n (not_a_number k s r set e) = n k s r set e
  Fault-IsUnrelated fl shellwords files limits env h n (not_a_percentage s set p e) =
      adjustment-ne-count
  Fault-IsUnrelated fl shellwords files limits env h n (not_a_bool s set e) = profile-ne-count
  Fault-IsUnrelated fl shellwords files limits env h n (not_words f) = tt
  Fault-IsUnrelated fl shellwords files limits env h n (no_agents words e f g) = tt
  Fault-IsUnrelated fl shellwords files limits env h n (no_application path e f g) = tt
  Fault-IsUnrelated fl shellwords files limits env h n (not_calculated c' e f g) = tt

  -- The helper for the classpath of the security providers: one before Java 9, and another after it.
  abbrev pub classpath_helper : Text → Env → Result HelperError Variables
  classpath_helper version env =
      if is_before_java9 sv version
      then security_providers_classpath_8 env
      else security_providers_classpath_9 env

  classpath_8-NamesNone :
      (env : Env) (o : Option Text) (dir : Text)
      → env "SECURITY_PROVIDERS_CLASSPATH" ≡ o
      → env "BPI_JVM_EXT_DIR" ≡ some dir
      → FailsWith NamesNone (security_providers_classpath_8 env)
  unfolding security_providers_classpath_8
  classpath_8-NamesNone env none dir e set = rw (e, FailsWith) tt
  classpath_8-NamesNone env (some p) dir e set = rw (e, set, FailsWith) tt

  classpath_9-NamesNone :
      (env : Env) (o : Option Text)
      → env "SECURITY_PROVIDERS_CLASSPATH" ≡ o
      → FailsWith NamesNone (security_providers_classpath_9 env)
  unfolding security_providers_classpath_9
  classpath_9-NamesNone env none e = rw (e, FailsWith) tt
  classpath_9-NamesNone env (some p) e = rw (e, FailsWith) tt

  classpath_helper-NamesNone :
      (env : Env) (version : Text)
      → (is_before_java9 sv version ≡ true → (dir : Text) × (env "BPI_JVM_EXT_DIR" ≡ some dir))
      → FailsWith NamesNone (classpath_helper version env)
  classpath_helper-NamesNone env version set = elim (Bool-cases (is_before_java9 sv version)) [
    | inl old ↦ rw (old, FailsWith) (classpath_8-NamesNone env _ (set old).0 refl (set old).1)
    | inr new ↦ rw (new, FailsWith) (classpath_9-NamesNone env _ refl)
  ]

  module _ {F : Type 0} (fl : Float64 F) (shellwords : Shellwords) (files : ClassFiles)
      (limits : LimitFiles) (sherpa : Sherpa) (load : Loader) (copy : CopyFile) (tmp : Text)
      (is_link_local : Text → Bool) (appendable : Text → Appendable) where
    -- What the helpers of a container do at its start, in an environment.
    pub record IsComplete (version : Text) (env : Env) (properties : PropertiesFile)
        (stores : Stores) (servers : List Text) : Type 0 where
      pub memory :
          FailsWith
            (λ e. Fault fl sv shellwords files limits env e × IsUnrelated e)
            (execute fl sv shellwords files limits env)
      pub providers : FailsWith Providers.Faults.NamesNone (Providers.execute env properties).0
      pub trust_store : FailsWith NamesNone (TrustStore.execute sherpa load copy env tmp stores).1
      pub dns : FailsWith NamesNone (Dns.execute is_link_local appendable env servers).0
      pub classpath : FailsWith NamesNone (classpath_helper version env)

    memory-IsUnrelated :
        (m : Machine) (c : ConfigJreContext) (env : Env)
        → (st : IsStarted sv m c env) → st.classes < 2 ^ 63
        → FailsWith
            (λ e. Fault fl sv shellwords files limits env e × IsUnrelated e)
            (execute fl sv shellwords files limits env)
    memory-IsUnrelated m c env st small =
        FailsWith-imp _ _ (execute fl sv shellwords files limits env)
          (λ e f. (
            f,
            Fault-IsUnrelated fl shellwords files limits env (λ k r. IsRequired-some m c env k st r)
                (λ k s h set u. HoldsNumber-IsUnrelated m c env k s st small h set u) f,
          ))
          (execute-FailsWith fl sv shellwords files limits env)

    -- If ConfigureJRE for the start and the layer of the security properties end without an error, the
    -- environment has what they set by default, and the number of classes fits an int, then neither the
    -- configurer of the security providers, nor the helpers for certificates, name servers and the
    -- classpath of the providers fail for a variable that is missing. An error of the memory calculator
    -- is neither a missing variable nor a class count of the runtime that cannot be read; it is one of
    -- the faults of its variables, its files, its options or its calculation that are listed in Fault.
    pub configure_jre-IsComplete :
        (m : Machine) (c : ConfigJreContext) (touch : Text → Bool) (home : Text) (env : Env)
        (properties : PropertiesFile) (stores : Stores) (servers : List Text)
        → c.is_launch ≡ true
        → (configure_jre sv m c).1 ≡ none
        → ((n : ℕ) → m.classes_of c.java_home ≡ some n → n < 2 ^ 63)
        → (contribute_security_properties touch home).1 ≡ none
        → All (IsSetIn env) (configure_jre sv m c).0.launch
        → All (IsSetIn env) (contribute_security_properties touch home).0.launch
        → IsComplete c.java_version env properties stores servers
    configure_jre-IsComplete m c touch home env properties stores servers launch fine small touched
          set also =
        let st = configure_jre-IsStarted sv m c env launch fine set in
        let (path, secured) = security_properties-set touch home env touched also in
        record {
          memory = memory-IsUnrelated m c env st (small st.classes st.classes_found);
          providers =
              ProvidersFaults.execute-NamesNone env properties _ path _ st.security_providers
                secured refl;
          trust_store =
              TrustStoreFaults.execute-NamesNone sherpa load copy env tmp stores _ st.cacerts;
          dns = DnsFaults.execute-NamesNone is_link_local appendable env servers path secured;
          classpath = classpath_helper-NamesNone env c.java_version st.ext_set;
        }
