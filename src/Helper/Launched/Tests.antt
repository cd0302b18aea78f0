-- ===== src/Helper/Launched/Tests.antt =====
-- A JRE for Java 18, with ten classes, one security provider and no limit on the memory.
use jvm_vendors.Base.{
  ℕ, ◌≡◌, ◌<◌, ◌^◌, refl, arith, true, false, none, some, List, [], ◌∷◌, ◌++◌, All,
}
use Prim.Native.Nat.{Ordering}
use Prim.Native.String
use jvm_vendors.Base.Text.{Text, codes}
use jvm_vendors.Base.Text.Decimal.{value_from}
use jvm_vendors.Versions.{is_before_java9}
use jvm_vendors.Java.Plan.{jre_type}
use jvm_vendors.Java.Runtime.{
  Setting, default, override, append, Machine, ConfigJreContext, configure_jre, launch_settings,
  ext_dir, contribute_security_properties,
}
use jvm_vendors.Helper.Env.{Env}
use jvm_vendors.Helper.Providers.{PropertiesFile}
use jvm_vendors.Helper.Dns.{Appendable}
use jvm_vendors.Helper.TrustStore.{Stores, CopyFile}
use jvm_vendors.Java.Certificates.{load}
use jvm_vendors.Java.Certificates.Samples.{decode, files, loader, java_store, plain_store, store}
use jvm_vendors.Helper.Samples.{words, sherpa, limits, versions, naturals, no_files}
use jvm_vendors.Base.Text.{is_digit}
use jvm_vendors.Base.Text.Split.{split}
use jvm_vendors.Helper.Providers.{execute, match_provider, is_word, word_run}
use jvm_vendors.Calc.Size.{split_digits}
use jvm_vendors.Helper.Providers.Recorded.{IsEntry}
use jvm_vendors.Helper.Providers.Appended.{is_placeable, IsRecorded, IsPlaceable, Appends}
use jvm_vendors.Helper.Launched.Providers.{configure_jre-Appends}
use jvm_vendors.Helper.Launched.{IsSetIn}
use jvm_vendors.Helper.Launched.Complete.{IsComplete, configure_jre-IsComplete}

abbrev copy : CopyFile
copy b file = (file, true)

abbrev machine : Machine
machine = record {
  chmod = λ p. true;
  load_certificates = λ p. true;
  classes_of = λ p. some 10;
  providers_of = λ p. some ((codes "1", codes "A") ∷ []);
}

abbrev start : ConfigJreContext
start = record {
  java_home = codes "/jre";
  java_version = codes "18";
  application_path = codes "/app";
  is_build = false;
  is_launch = true;
  skip_certs = false;
  dist_type = jre_type;
}

-- The environment of some defaults alone.
abbrev given : List Setting → Env
given [] k = none
given (default k' v ∷ ss) k = elim (String.compare k k') [ Ordering.eq ↦ some v | _ ↦ given ss k ]
given (override k' v ∷ ss) k = given ss k
given (append k' d v ∷ ss) k = given ss k

-- The defaults of the two layers, and a provider of the user.
abbrev env : Env
env k =
    given
      ((configure_jre versions machine start).0.launch
        ++ ((contribute_security_properties (λ p. true) (codes "/layer")).0.launch
            ++ default "SECURITY_PROVIDERS" (codes "1|B") ∷ []))
      k

configured : (configure_jre versions machine start).1 ≡ none
unfolding configure_jre launch_settings
configured = refl

touched : (contribute_security_properties (λ p. true) (codes "/layer")).1 ≡ none
unfolding contribute_security_properties
touched = refl

set : All (IsSetIn env) (configure_jre versions machine start).0.launch
unfolding configure_jre launch_settings contribute_security_properties ext_dir is_before_java9
    value_from
set = (refl, (refl, (refl, (refl, (refl, (refl, (refl, (tt, tt))))))))

also_set : All (IsSetIn env) (contribute_security_properties (λ p. true) (codes "/layer")).0.launch
unfolding configure_jre launch_settings contribute_security_properties ext_dir is_before_java9
    value_from
also_set = (tt, (refl, tt))

few_classes : (n : ℕ) → machine.classes_of start.java_home ≡ some n → n < 2 ^ 63
few_classes n h = let e : 10 ≡ n = ground arith in omega (arith, e)

abbrev properties : PropertiesFile
properties = record { writable = true; opens = true; writes = λ n. true }

abbrev stores : Stores
stores = record { given = store; temporary = store }

abbrev appendable : Text → Appendable
appendable path = record { writable = true; opens = true; append = λ t. (t, true) }

configure_jre-IsComplete_example :
    IsComplete versions naturals words no_files limits sherpa
      (load java_store plain_store files decode loader)
      copy
      (codes "/tmp")
      (λ s. true)
      appendable
      (codes "18")
      env
      properties
      stores
      (codes "169.254.1.1" ∷ [])
configure_jre-IsComplete_example =
    configure_jre-IsComplete versions naturals words no_files limits sherpa
      (load java_store plain_store files decode loader) copy (codes "/tmp") (λ s. true) appendable
      machine start (λ p. true) (codes "/layer") env properties stores (codes "169.254.1.1" ∷ [])
      refl configured few_classes touched set also_set

asked : env "SECURITY_PROVIDERS" ≡ some (codes "1|B")
unfolding configure_jre launch_settings contribute_security_properties ext_dir is_before_java9
    value_from
asked = refl

one_provider-IsRecorded : All IsRecorded ((codes "1", codes "A") ∷ [])
unfolding IsEntry is_digit is_word is_placeable value_from
one_provider-IsRecorded = (((refl, (refl, tt), refl, (refl, tt)), refl), tt)

asked-IsPlaceable : All IsPlaceable (split b' ' (codes "1|B"))
unfolding split is_placeable match_provider is_digit is_word value_from split_digits word_run
asked-IsPlaceable = (refl, tt)

configure_jre-Appends_example :
    Appends ((codes "1", codes "A") ∷ []) (codes "1|B") (execute env properties)
configure_jre-Appends_example =
    configure_jre-Appends versions machine start (λ p. true) (codes "/layer") env properties
      (codes "1", codes "A") [] (codes "1|B") refl configured touched set also_set refl
      one_provider-IsRecorded asked asked-IsPlaceable (refl, refl, λ k. refl)
