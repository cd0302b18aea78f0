-- ===== src/Java/Generate.antt =====
-- generate.go: the files that an image extension writes for the entries of the build plan.
mod Left
pub mod Written
mod Tests
use jvm_vendors.Base.{
  Bool, true, false, not, ◌&&◌, Option, none, some, List, [], ◌∷◌, ◌++◌, if◌then◌else◌,
}
use jvm_vendors.Base.FilePath.{join_path}
use jvm_vendors.Base.Result.{Result, ok, err, ◌>>=◌}
use jvm_vendors.Base.Text.{Text, codes}

pub record ExtendImageConfigArg : Type 0 where
  pub name : Text
  pub value : Text

-- ExtendConfig, with the arguments of its ExtendImageConfig.
pub record ExtendConfig : Type 0 where
  pub build_args : List ExtendImageConfigArg

-- GenerateContentResult: what the readers give, where an inner none is an error in the middle.
pub record Content (R : Type 0) : Type 0 where
  pub extend_config : ExtendConfig
  pub build_dockerfile : Option (Option Text)
  pub run_dockerfile : Option (Option Text)
  pub generate_result : R

pub data GenerateError : Type 0 where
  bad_plan bad_library content_failed cannot_create cannot_copy cannot_encode : GenerateError

-- The plan entries jdk, jre and native-image-builder, where none cannot be resolved; which steps of
-- the library succeed; what the callback returns; which files can be created; and the encoding.
pub record GenerateContext (R : Type 0) : Type 0 where
  pub jdk_required : Option Bool
  pub jre_required : Option Bool
  pub native_required : Option Bool
  pub metadata_ok : Bool
  pub configuration_ok : Bool
  pub dependencies_ok : Bool
  pub cache_ok : Bool
  pub content : Option (Content R)
  pub output_directory : Text
  pub creates : Text → Bool
  pub encode_toml : ExtendConfig → Option Text
  pub empty_result : R

-- The files that are written, with their texts, and the outcome. A reader that fails leaves a file
-- of which the text is not known.
abbrev pub Files : Type 0
Files = List (Text × Option Text)

abbrev pub Generated : Type 0 → Type 0
Generated R = Files × Result GenerateError R

module _ {R : Type 0} (c : GenerateContext R) where
  entry : Option Bool → Result GenerateError Bool
  entry none = err bad_plan
  entry (some b) = ok b

  -- A file, and then the rest.
  then_file : Files → Generated R → Generated R
  then_file files (more, outcome) = (files ++ more, outcome)

  copied : Text → Option Text → Generated R → Generated R
  unfolding then_file
  copied path none rest = ((path, none) ∷ [], err cannot_copy)
  copied path (some s) rest = then_file ((path, some s) ∷ []) rest

  unfoldable pub write_file : Text → Option Text → Generated R → Generated R
  unfolding copied
  write_file name reader rest =
      let path = join_path (c.output_directory ∷ name ∷ []) in
      if c.creates path then copied path reader rest else ([], err cannot_create)

  pub write_dockerfile : Text → Option (Option Text) → Generated R → Generated R
  unfolding write_file
  write_dockerfile name none rest = rest
  write_dockerfile name (some reader) rest = write_file name reader rest

  pub write_encoded : Text → Option Text → Generated R → Generated R
  unfolding write_file
  write_encoded name none rest = ([], err cannot_encode)
  write_encoded name (some s) rest = write_file name (some s) rest

  unfoldable pub write_toml : Text → ExtendConfig → Generated R → Generated R
  unfolding write_encoded
  write_toml name config rest = write_encoded name (c.encode_toml config) rest

  write_content : Option (Content R) → Generated R
  unfolding write_dockerfile write_toml
  write_content none = ([], err content_failed)
  write_content (some content) =
      write_dockerfile (codes "build.Dockerfile") content.build_dockerfile (
        write_dockerfile (codes "run.Dockerfile") content.run_dockerfile (
          write_toml (codes "extend-config.toml") content.extend_config
            ([], ok content.generate_result)))

  pub is_required : Result GenerateError Bool
  unfolding entry
  is_required = entry c.jdk_required >>= λ jdk. entry c.jre_required >>= λ jre.
      entry c.native_required >>= λ native. ok (not (not jdk && not jre && not native))

  when_required : Result GenerateError Bool → Generated R
  unfolding write_content
  when_required (err e) = ([], err e)
  when_required (ok false) = ([], ok c.empty_result)
  when_required (ok true) =
      if c.metadata_ok && c.configuration_ok && c.dependencies_ok && c.cache_ok
      then write_content c.content
      else ([], err bad_library)

  -- `Generate`
  unfoldable pub generate : Generated R
  unfolding is_required when_required
  generate = when_required is_required
