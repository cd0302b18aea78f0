-- ===== src/Java/Jlink/Contribute/Tests.antt =====
-- A runtime that jlink makes from Java 17.
use jvm_vendors.Java.Jlink.{jlink_args}
use jvm_vendors.Base.{ℕ, ◌≡◌, refl, true, false, none, some, [], ◌∷◌, ltb}
use jvm_vendors.Base.Text.{codes}
use jvm_vendors.Base.Text.Decimal.{value_from, value}
use jvm_vendors.Versions.{Semver, is_before_java9}
use jvm_vendors.Java.Plan.{flag}
use jvm_vendors.Java.Runtime.{Machine, configure_jre}
use jvm_vendors.Java.Jlink.Contribute.{Commands, JlinkLayer, create, contribute_jlink}
use jvm_vendors.Java.Jlink.Contribute.Equivalence.{jre_context, contribute_jlink-configure_jre}

abbrev same : ℕ → ℕ
same c = c

abbrev versions : Semver ℕ
versions = record { new_version = λ s. some (value s); less_than = ltb }

abbrev machine : Machine
machine = record {
  chmod = λ p. true;
  load_certificates = λ p. true;
  classes_of = λ p. some 10;
  providers_of = λ p. some ((codes "1", codes "A") ∷ []);
}

abbrev commands : Commands
commands = record {
  remove_all = λ p. true;
  list_modules = λ p. some (codes "java.base@17");
  run = λ p args. true;
}

abbrev layer : JlinkLayer
layer = record {
  application_path = codes "/app";
  metadata = record { build = none; cache = none; launch = some (flag true) };
  java_version = codes "17";
  args = [];
  user_configured = false;
}

created : create same machine commands (codes "/jlink") layer ≡ none
unfolding create jlink_args
created = refl

is_new : is_before_java9 versions (codes "17") ≡ false
unfolding is_before_java9 value_from
is_new = refl

contribute_jlink-configure_jre_example :
    ((contribute_jlink same machine commands (codes "/jlink") layer).0.launch
      ≡ (configure_jre versions machine (jre_context (codes "/jlink") layer)).0.launch)
    × ((contribute_jlink same machine commands (codes "/jlink") layer).1
        ≡ (configure_jre versions machine (jre_context (codes "/jlink") layer)).1)
contribute_jlink-configure_jre_example =
    contribute_jlink-configure_jre same machine commands versions (codes "/jlink") layer is_new
      created
