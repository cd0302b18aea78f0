-- ===== src/Java/Plan/Shapes.antt =====
-- What a build contributes: which layers stand together.
use jvm_vendors.Base.{
  ℕ, ◌≡◌, refl, subst, Bool, true, false, not, ◌&&◌, ◌||◌, Option, none, some, List, [], ◌∷◌, ◌++◌,
  if◌then◌else◌, is_nil,
}
use mathlib.Core.List.{append-nil}
use jvm_vendors.Base.Result.{Result, ok, err, ◌>>=◌, map_err}
use jvm_vendors.Base.Text.{Text, codes}
use jvm_vendors.Versions.{Semver, is_before_java9}
use jvm_vendors.Java.Vendors.{load_jvm_vendors}
use jvm_vendors.Java.Version.{
  Resolution, found, no_valid_dependencies, failed, is_no_valid, get_jvm_version,
}
use jvm_vendors.Java.Plan.{
  jdk_type, jre_type, Metadata, is_launch_contribution, Contribution, jdk, jre, jlink, nik,
  BuildError, no_certificates, panics, bad_library, bad_version, Context, check, entry_of,
  contribute_helpers, contribute_jdk, contribute_jre, contribute_jdk_as_jre, contribute_jlink,
  contribute_nik, is_found, native_image, with_jlink, jdk_as_jre, separate_jre, separate,
  is_jre_skipped, contributions, chosen_vendor, required, build, jlink_layer,
}

module _ {V : Type 0} (sv : Semver V) (other : ℕ → ℕ) {D : Type 0} (c : Context D) where
  -- A layer that has a Java runtime of a dependency for the start of the application.
  abbrev pub IsRuntime : D → Contribution D → Type 0
  IsRuntime d (jre e t md) = e ≡ d
  IsRuntime d (jlink e args explicit md) = e ≡ d
  IsRuntime d _ = ⊥

  -- Nothing or one JDK.
  abbrev pub IsJdk : List (Contribution D) → Type 0
  IsJdk [] = Unit
  IsJdk (jdk d ∷ []) = Unit
  IsJdk _ = ⊥

  pub data Shape (cs : List (Contribution D)) : Type 0 where
    jdk_at_most : IsJdk cs → Shape cs
    native :
        (d e : D) (command : Text) (args : List Text) → cs ≡ nik d e command args ∷ [] → Shape cs
    started :
        (front : List (Contribution D)) (runtime : Contribution D) (d : D)
        → IsJdk front
        → IsRuntime d runtime
        → cs ≡ front ++ (runtime ∷ contribute_helpers sv other c d)
        → Shape cs
    not_started :
        (front : List (Contribution D)) (d : D) (md : Metadata)
        → IsJdk front
        → is_launch_contribution md ≡ false
        → cs ≡ front ++ (jre d jre_type md ∷ [])
        → Shape cs

  -- A result without an error has a shape.
  HasShape : Result BuildError (List (Contribution D)) → Type 0
  HasShape (ok cs) = Shape cs
  HasShape (err e) = Unit

  ok-HasShape : {cs : List (Contribution D)} → Shape cs → HasShape (ok cs)
  unfolding HasShape
  ok-HasShape h = h

  err-HasShape : (e : BuildError) → HasShape (err e)
  unfolding HasShape
  err-HasShape e = tt

  if-HasShape :
      (b : Bool) (x y : Result BuildError (List (Contribution D)))
      → HasShape x
      → (b ≡ false → HasShape y)
      → HasShape (if b then x else y)
  if-HasShape true x y hx hy = hx
  if-HasShape false x y hx hy = hy refl

  bind-HasShape :
      {A : Type 0} (m : Result BuildError A) (f : A → Result BuildError (List (Contribution D)))
      → ((a : A) → HasShape (f a))
      → HasShape (m >>= f)
  bind-HasShape (ok a) f h = h a
  bind-HasShape (err e) f h = err-HasShape e

  -- A layer that is only made with certificates, and what is done with it.
  layer-HasShape :
      (b : Bool) (x : Contribution D) (e : BuildError)
      (f : List (Contribution D) → Result BuildError (List (Contribution D)))
      → HasShape (f (x ∷ []))
      → HasShape ((if b then ok (x ∷ []) else err e) >>= f)
  layer-HasShape true x e f h = h
  layer-HasShape false x e f h = err-HasShape e

  guarded_layer-HasShape :
      (n b : Bool) (x : Contribution D) (p e : BuildError)
      (f : List (Contribution D) → Result BuildError (List (Contribution D)))
      → HasShape (f (x ∷ []))
      → HasShape ((if n then err p else if b then ok (x ∷ []) else err e) >>= f)
  guarded_layer-HasShape true b x p e f h = err-HasShape p
  guarded_layer-HasShape false b x p e f h = layer-HasShape b x e f h

  one-HasShape :
      (b : Bool) (x : Contribution D) (e : BuildError)
      → Shape (x ∷ [])
      → HasShape (if b then ok (x ∷ []) else err e)
  one-HasShape b x e h = if-HasShape b _ _ (ok-HasShape h) (λ _. err-HasShape e)

  jdk-HasShape : (d : D) → HasShape (contribute_jdk sv other c d)
  unfolding contribute_jdk
  jdk-HasShape d = one-HasShape c.certificates_ok (jdk d) no_certificates (jdk_at_most tt)

  native_image-HasShape :
      (jdk_dep : D) (r : Resolution D) → HasShape (native_image sv other c jdk_dep r)
  unfolding native_image contribute_nik
  native_image-HasShape jdk_dep (found d) =
      if-HasShape c.native.bundled_with_jdk _ _ (jdk-HasShape d) (λ _.
        if-HasShape (is_nil c.native.custom_command) _ _ (err-HasShape _) (λ _.
          one-HasShape c.certificates_ok (nik jdk_dep d _ _) no_certificates
            (native jdk_dep d _ _ refl)))
  native_image-HasShape jdk_dep no_valid_dependencies = err-HasShape _
  native_image-HasShape jdk_dep failed = err-HasShape _

  jlink_layer-HasShape :
      (d : D) (md : Metadata) (words : Option (List Text))
      → HasShape (
          jlink_layer sv other c d md words >>= λ second.
          ok ((jdk d ∷ []) ++ (second ++ contribute_helpers sv other c d)))
  unfolding jlink_layer
  jlink_layer-HasShape d md none = err-HasShape _
  jlink_layer-HasShape d md (some args) =
      layer-HasShape c.certificates_ok (jlink d args c.jlink_explicit md) no_certificates _
        (ok-HasShape (started (jdk d ∷ []) (jlink d args c.jlink_explicit md) d tt refl refl))

  with_jlink-HasShape : (v : Text) (d : D) (md : Metadata) → HasShape (with_jlink sv other c v d md)
  unfolding with_jlink contribute_jdk contribute_jlink
  with_jlink-HasShape v d md = if-HasShape (is_before_java9 sv v) _ _ (err-HasShape _) (λ _.
      layer-HasShape c.certificates_ok (jdk d) no_certificates _
        (jlink_layer-HasShape d md c.jlink_words))

  jdk_as_jre-HasShape : (b : Bool) (d : D) (md : Metadata) → HasShape (jdk_as_jre sv other c b d md)
  unfolding jdk_as_jre contribute_jdk_as_jre contribute_jre
  jdk_as_jre-HasShape b d md = if-HasShape b _ _ (err-HasShape _) (λ _.
      guarded_layer-HasShape c.jre_metadata_nil c.certificates_ok (jre d jdk_type _) panics
        no_certificates _ (ok-HasShape (started [] _ d tt refl refl)))

  -- A JRE behind nothing or one JDK, with helpers if it is for the start.
  jre_behind :
      (front : List (Contribution D)) (d : D) (md : Metadata) (b : Bool)
      → IsJdk front
      → is_launch_contribution md ≡ b
      → Shape (front ++ (jre d jre_type md ∷ (if b then contribute_helpers sv other c d else [])))
  jre_behind front d md true h e = started front (jre d jre_type md) d h refl refl
  jre_behind front d md false h e = not_started front d md h e refl

  separate_jre-HasShape :
      (front : List (Contribution D)) (b : Bool) (d : D) (md : Metadata)
      → IsJdk front
      → HasShape
          ((if b then separate_jre sv other c d md else ok []) >>= λ second. ok (front ++ second))
  unfolding separate_jre contribute_jre
  separate_jre-HasShape front false d md h = rw append-nil (ok-HasShape (jdk_at_most h))
  separate_jre-HasShape front true d md h = with_certificates c.certificates_ok
    where
      with_certificates :
          (ready : Bool)
          → HasShape (
              ((if ready then ok (jre d jre_type md ∷ []) else err no_certificates) >>= λ first.
              ok (
                first
                ++ (if is_launch_contribution md then contribute_helpers sv other c d else [])))
              >>= λ second. ok (front ++ second))
      with_certificates true =
          ok-HasShape (jre_behind front d md (is_launch_contribution md) h refl)
      with_certificates false = err-HasShape _

  separate-HasShape :
      (a b : Bool) (md : Metadata) (d e : D) → HasShape (separate sv other c a b md d e)
  unfolding separate contribute_jdk
  separate-HasShape false b md d e = separate_jre-HasShape [] b e md tt
  separate-HasShape true b md d e =
      layer-HasShape c.certificates_ok (jdk d) no_certificates _
        (separate_jre-HasShape (jdk d ∷ []) b e md tt)

  contributions-HasShape :
      (a b n : Bool) (md : Metadata) (vendor v : Text)
      → HasShape (contributions sv other c a b n md vendor v)
  unfolding contributions
  contributions-HasShape a b n md vendor v =
      let jdk_found = c.resolve (codes "jdk-" ++ vendor) v in
      let jre_found = c.resolve (codes "jre-" ++ vendor) v in
      if-HasShape (a && not n && not (is_found sv other c jdk_found)) _ _ (err-HasShape _) (λ _.
        if-HasShape n _ _ (native_image-HasShape _ _) (λ _.
          if-HasShape c.jlink_enabled _ _ (with_jlink-HasShape v _ md) (λ _.
            if-HasShape (b && (is_jre_skipped sv other c || is_no_valid jre_found)) _ _
              (jdk_as_jre-HasShape _ _ md) (λ _. separate-HasShape a b md _ _))))

  required-HasShape : (a b n : Bool) (md : Metadata) → HasShape (required sv other c a b n md)
  unfolding required
  required-HasShape a b n md =
      bind-HasShape (check (c.metadata_ok && c.configuration_ok && c.dependencies_ok) bad_library) _
        (λ _.
          bind-HasShape (chosen_vendor sv other c c.vendor (load_jvm_vendors c.vendors)) _
            (λ vendor.
              bind-HasShape (map_err bad_version (get_jvm_version other c.resolve c.sources vendor))
                _
                (λ v.
                  bind-HasShape (check c.cache_ok bad_library) _
                    (λ _. contributions-HasShape a b n md vendor v))))

  build-HasShape : HasShape (build sv other c)
  unfolding build
  build-HasShape = bind-HasShape (entry_of c.plan.jdk_required) _ (λ a.
      bind-HasShape (entry_of c.plan.jre_required) _ (λ (b, md).
        bind-HasShape (entry_of c.plan.native_required) _ (λ n.
          if-HasShape (not a && not b && not n) _ _ (ok-HasShape (jdk_at_most tt))
            (λ _. required-HasShape a b n md))))

  -- A build that succeeds contributes one of these: at most one JDK and nothing else; a native image
  -- kit alone; a runtime (a JRE, a JDK used as one, or the result of jlink), behind it the helpers for
  -- the version of that runtime's dependency and the security properties, and in front of it at most
  -- one JDK; or such a JRE without helpers, if its entry does not ask for the start.
  pub build-Shape : {cs : List (Contribution D)} → build sv other c ≡ ok cs → Shape cs
  unfolding HasShape
  build-Shape h = subst HasShape h build-HasShape
