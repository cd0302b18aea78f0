-- ===== src/Java/Generate/Written.antt =====
-- The files that Generate has written when it returns.
use jvm_vendors.Base.{
  ◌≡◌, refl, ap, sym, subst, ◌∙◌, ◌⊎◌, inl, inr, Bool, true, false, not, ◌&&◌, Option, none, some,
  [], ◌∷◌, ◌++◌, if◌then◌else◌,
}
use jvm_vendors.Base.Result.{Result, ok, err, ◌>>=◌}
use jvm_vendors.Base.Text.{Text, codes}
use jvm_vendors.Java.Generate.{
  Content, GenerateContext, GenerateError, bad_plan, bad_library, content_failed, cannot_create,
  cannot_copy, cannot_encode, Files, Generated, then_file, copied, write_file, write_dockerfile,
  write_encoded, write_toml, write_content, entry, is_required, when_required, generate,
}
use jvm_vendors.Java.Generate.Left.{
  whole, path_of, Leaves, LeavesLate, write_dockerfile-LeavesLate, write_encoded-LeavesLate,
}

module _ {R : Type 0} (c : GenerateContext R) where
  -- The files of a Dockerfile: none if the callback gives no reader, and else what is read.
  pub data DockerfileFiles (name : Text) : Option (Option Text) → Files → Type 0 where
    not_given : DockerfileFiles name none []
    given :
        (s : Text)
        → c.creates (path_of c name) ≡ true
        → DockerfileFiles name (some (some s)) (whole (path_of c name) s ∷ [])

  -- A success writes the Dockerfiles that the callback gives, and the configuration at last.
  pub record IsWritten (content : Content R) (files : Files) (r : R) : Type 0 where
    pub build_files : Files
    pub build_written :
        DockerfileFiles (codes "build.Dockerfile") content.build_dockerfile build_files
    pub run_files : Files
    pub run_written : DockerfileFiles (codes "run.Dockerfile") content.run_dockerfile run_files
    pub config : Text
    pub config_encoded : c.encode_toml content.extend_config ≡ some config
    pub config_created : c.creates (path_of c (codes "extend-config.toml")) ≡ true
    pub in_order :
        files
        ≡ build_files ++ (run_files ++ whole (path_of c (codes "extend-config.toml")) config ∷ [])
    pub result : r ≡ content.generate_result

  write_file-eq-ok :
      (name : Text) (reader : Option Text) (rest : Generated R) (b : Bool) {files : Files} {r : R}
      → c.creates (path_of c name) ≡ b
      → write_file c name reader rest ≡ (files, ok r)
      → (s : Text) × (reader ≡ some s)
        × (b ≡ true)
        × (more : Files) × (rest ≡ (more, ok r))
        × (files ≡ whole (path_of c name) s ∷ more)
  unfolding write_file copied then_file
  write_file-eq-ok name reader rest false e h = cc (rw e at h)
  write_file-eq-ok name none rest true e h = cc (rw e at h)
  write_file-eq-ok name (some s) (more, outcome) true {files} {r} e h =
      let g : ◌≡◌ {A = Generated R} ((path_of c name, some s) ∷ more, outcome) (files, ok r) =
        rw e at h in
      (s, refl, refl, more, cc (g), cc (g))

  write_dockerfile-eq-ok :
      (name : Text) (o : Option (Option Text)) (rest : Generated R) {files : Files} {r : R}
      → write_dockerfile c name o rest ≡ (files, ok r)
      → (front : Files) × DockerfileFiles name o front
        × (more : Files) × (rest ≡ (more, ok r))
        × (files ≡ front ++ more)
  unfolding write_dockerfile
  write_dockerfile-eq-ok name none rest {files} h = ([], not_given, files, h, refl)
  write_dockerfile-eq-ok name (some none) rest h =
      let (s, e, created, more, f, g) = write_file-eq-ok name none rest _ refl h in cc (e)
  write_dockerfile-eq-ok name (some (some t)) rest h =
      let (s, e, created, more, f, g) = write_file-eq-ok name (some t) rest _ refl h in
      (whole (path_of c name) t ∷ [], given t created, more, f, cc)

  write_encoded-eq-ok :
      (name : Text) (o : Option Text) (r' : R) {files : Files} {r : R}
      → write_encoded c name o ([], ok r') ≡ (files, ok r)
      → (s : Text) × (o ≡ some s)
        × (c.creates (path_of c name) ≡ true)
        × (files ≡ whole (path_of c name) s ∷ [])
        × (r ≡ r')
  unfolding write_encoded
  write_encoded-eq-ok name none r' h = cc
  write_encoded-eq-ok name (some t) r' h =
      let (s, e, created, more, f, g) = write_file-eq-ok name (some t) _ _ refl h in
      (t, refl, created, cc, cc (f))

  write_content-eq-ok :
      (content : Content R) {files : Files} {r : R}
      → write_content c (some content) ≡ (files, ok r)
      → IsWritten content files r
  unfolding write_content write_toml
  write_content-eq-ok content h =
      let (build, hb, more, f, e) =
        write_dockerfile-eq-ok (codes "build.Dockerfile") content.build_dockerfile _ h in
      let (run, hr, last, f', e') =
        write_dockerfile-eq-ok (codes "run.Dockerfile") content.run_dockerfile _ f in
      let (s, encoded, created, e'', result) =
        write_encoded-eq-ok (codes "extend-config.toml") (c.encode_toml content.extend_config) _
          f' in
      record {
        build_files = build;
        build_written = hb;
        run_files = run;
        run_written = hr;
        config = s;
        config_encoded = encoded;
        config_created = created;
        in_order = e ∙ ap (λ t. build ++ t) (e' ∙ ap (λ t. run ++ t) e'');
        result = result;
      }

  -- What a run of Generate leaves behind.
  abbrev pub Outcome : Generated R → Type 0
  Outcome (files, err e) = Leaves c files e
  Outcome (files, ok r) =
      ((is_required c ≡ ok false) × (files ≡ []) × (r ≡ c.empty_result))
      ⊎ ((is_required c ≡ ok true)
          × (content : Content R) × (c.content ≡ some content)
          × IsWritten content files r)

  late-Outcome :
      (content : Content R) (g : Generated R)
      → is_required c ≡ ok true
      → c.content ≡ some content
      → write_content c (some content) ≡ g
      → LeavesLate c g
      → Outcome g
  late-Outcome content (files, ok r) required e h late =
      inr (required, content, e, write_content-eq-ok content h)
  late-Outcome content (files, err bad_plan) required e h late = absurd late
  late-Outcome content (files, err bad_library) required e h late = absurd late
  late-Outcome content (files, err content_failed) required e h late = absurd late
  late-Outcome content (files, err cannot_create) required e h late = late
  late-Outcome content (files, err cannot_encode) required e h late = late
  late-Outcome content (files, err cannot_copy) required e h late = late

  content-Outcome :
      (o : Option (Content R))
      → is_required c ≡ ok true
      → c.content ≡ o
      → Outcome (write_content c o)
  unfolding write_content write_toml
  content-Outcome none required e = refl
  content-Outcome (some content) required e = late-Outcome content _ required e refl (
      write_dockerfile-LeavesLate c _ content.build_dockerfile _ (
        write_dockerfile-LeavesLate c _ content.run_dockerfile _ (
          write_encoded-LeavesLate c _ (c.encode_toml content.extend_config)
            content.generate_result)))

  library-Outcome :
      (b : Bool)
      → is_required c ≡ ok true
      → Outcome (if b then write_content c c.content else ([], err bad_library))
  library-Outcome true required = content-Outcome c.content required refl
  library-Outcome false required = refl

  required-bad_plan : (e : GenerateError) → is_required c ≡ err e → e ≡ bad_plan
  unfolding is_required entry
  required-bad_plan e h = go c.jdk_required c.jre_required c.native_required h
    where
      go :
          (a b d : Option Bool)
          → (entry c a >>= λ jdk. entry c b >>= λ jre.
              entry c d >>= λ native. ok (not (not jdk && not jre && not native)))
            ≡ err e
          → e ≡ bad_plan
      go none b d h = cc
      go (some x) none d h = cc
      go (some x) (some y) none h = cc
      go (some x) (some y) (some z) h = cc

  when_required-Outcome :
      (q : Result GenerateError Bool) → is_required c ≡ q → Outcome (when_required c q)
  unfolding when_required
  when_required-Outcome (err e) h = subst (λ x. Leaves c [] x) (sym (required-bad_plan e h)) refl
  when_required-Outcome (ok false) h = inl (h, refl, refl)
  when_required-Outcome (ok true) h = library-Outcome _ h

  -- What Generate leaves. A success without an entry of the plan that is required writes nothing and
  -- gives the empty result; else it writes the Dockerfiles that the callback gives, in order, and
  -- behind them the configuration, and gives the result of the callback. An error in the plan, the
  -- library or the callback leaves no file, and one in the writing leaves whole files, except that the
  -- file whose copy fails is the last and is not known.
  pub generate-Outcome : Outcome (generate c)
  unfolding generate
  generate-Outcome = when_required-Outcome (is_required c) refl
