-- ===== src/Java/Generate/Tests.antt =====
-- A plan that requires a JRE, for which the callback gives one Dockerfile.
use jvm_vendors.Base.{true, false, none, some, [], ℕ}
use jvm_vendors.Base.Text.{codes}
use jvm_vendors.Java.Generate.{GenerateContext, Content, generate}
use jvm_vendors.Java.Generate.Written.{Outcome, generate-Outcome}

abbrev content : Content ℕ
content = record {
  extend_config = record { build_args = [] };
  build_dockerfile = some (some (codes "FROM x"));
  run_dockerfile = none;
  generate_result = 1;
}

abbrev context : GenerateContext ℕ
context = record {
  jdk_required = some false;
  jre_required = some true;
  native_required = some false;
  metadata_ok = true;
  configuration_ok = true;
  dependencies_ok = true;
  cache_ok = true;
  content = some content;
  output_directory = codes "/out";
  creates = λ p. true;
  encode_toml = λ config. some (codes "x");
  empty_result = 0;
}

generate-Outcome_example : Outcome context (generate context)
generate-Outcome_example = generate-Outcome context
