-- ===== src/Java/Version/Precedence.antt =====
-- The sources of the Java version, in their order.
use jvm_vendors.Base.{
  ℕ, ◌≡◌, refl, ap, Bool, true, false, not, ◌&&◌, Option, none, some, List, [], ◌∷◌, is_nil,
  if◌then◌else◌,
}
use jvm_vendors.Base.Result.{Result, ok, err, ◌>>=◌}
use jvm_vendors.Base.Text.{Text}
use jvm_vendors.Java.Version.{
  Resolution, Sources, VersionError, sdkman_version, maven_version, extract_major_version,
  is_missing, next_version, available_version, from_manifest, get_jvm_version,
}

-- The version of the first source that has one. A source that cannot be read ends the search.
pub first_version : List (Result VersionError (Option Text)) → Text → Result VersionError Text
first_version [] default = ok default
first_version (err e ∷ sources) default = err e
first_version (ok (some v) ∷ sources) default = ok v
first_version (ok none ∷ sources) default = first_version sources default

-- The major version of a text; an empty text has none.
major : Text → Result VersionError (Option Text)
major [] = ok none
major (c ∷ s) = extract_major_version (c ∷ s) >>= λ v. ok (some v)

module _ (other : ℕ → ℕ) {D : Type 0} (resolve : Text → Text → Resolution D) where
  -- The first of some versions that the vendor has.
  first_there : Text → List Text → Text → Text
  first_there vendor [] default = default
  first_there vendor (v ∷ vs) default =
      if is_missing other resolve vendor v then first_there vendor vs default else v

  with_next : Text → Option Text → Option Text
  with_next vendor none = none
  with_next vendor (some v) = some (first_there vendor (v ∷ next_version other resolve v ∷ []) v)

  pub user_version : Sources → Result VersionError (Option Text)
  user_version src = ok (if src.explicit then some src.configured else none)

  pub sdkmanrc_version : Sources → Result VersionError (Option Text)
  unfolding major
  sdkmanrc_version src = sdkman_version other resolve src.sdkmanrc >>= major

  -- The major version of the manifest or, if the vendor does not have it, the next one.
  pub manifest_version : Sources → Text → Result VersionError (Option Text)
  unfolding major with_next first_there
  manifest_version src vendor =
      maven_version other resolve src.manifest >>= λ m. major m >>= λ v. ok (with_next vendor v)

  available-first_there :
      (vendor v : Text)
      → available_version other resolve vendor v
        ≡ first_there vendor (v ∷ next_version other resolve v ∷ []) v
  unfolding available_version first_there
  available-first_there vendor v =
      by_missing (is_missing other resolve vendor v)
        (is_missing other resolve vendor (next_version other resolve v))
    where
      by_missing :
          (b c : Bool)
          → (if b && not c then next_version other resolve v else v)
            ≡ (if b then (if c then v else next_version other resolve v) else v)
      by_missing true true = refl
      by_missing true false = refl
      by_missing false c = refl

  from_manifest-first :
      (src : Sources) (vendor : Text)
      → from_manifest other resolve src vendor
        ≡ first_version (manifest_version src vendor ∷ []) src.configured
  unfolding from_manifest first_version manifest_version
  from_manifest-first src vendor = by_text (maven_version other resolve src.manifest)
    where
      by_major :
          (r : Result VersionError Text)
          → (r >>= λ v. ok (available_version other resolve vendor v))
            ≡ first_version
                (((r >>= λ v. ok (some v)) >>= λ v. ok (with_next vendor v)) ∷ [])
                src.configured
      by_major (ok v) = ap ok (available-first_there vendor v)
      by_major (err e) = refl

      by_text :
          (r : Result VersionError Text)
          → (r >>= λ m.
              if is_nil m
              then ok src.configured
              else (extract_major_version m >>= λ v. ok (available_version other resolve vendor v)))
            ≡ first_version
                ((r >>= λ m. major m >>= λ v. ok (with_next vendor v)) ∷ [])
                src.configured
      by_text (err e) = refl
      by_text (ok []) = refl
      by_text (ok (c ∷ m)) = by_major (extract_major_version (c ∷ m))

  -- The Java version is that of the first source which has one: the one that is set explicitly, the
  -- major version of .sdkmanrc, the major version of the manifest or, where the vendor lacks that and
  -- has the next, the next one; and else the default. A source that cannot be read ends the search
  -- with its error, but only if no source before it has a version.
  pub get_jvm_version-first :
      (src : Sources) (vendor : Text)
      → get_jvm_version other resolve src vendor
        ≡ first_version
            (user_version src ∷ sdkmanrc_version src ∷ manifest_version src vendor ∷ [])
            src.configured
  unfolding get_jvm_version first_version user_version sdkmanrc_version
  get_jvm_version-first src vendor =
      by_source src.explicit (sdkman_version other resolve src.sdkmanrc)
    where
      by_major :
          (r : Result VersionError Text)
          → r
            ≡ first_version
                ((r >>= λ v. ok (some v)) ∷ manifest_version src vendor ∷ [])
                src.configured
      by_major (ok v) = refl
      by_major (err e) = refl

      by_source :
          (b : Bool) (r : Result VersionError Text)
          → (if b
              then ok src.configured
              else (r >>= λ s.
                  if is_nil s
                  then from_manifest other resolve src vendor
                  else extract_major_version s))
            ≡ first_version
                (ok (if b then some src.configured else none)
                  ∷ (r >>= major)
                  ∷ manifest_version src vendor
                  ∷ [])
                src.configured
      by_source true r = refl
      by_source false (err e) = refl
      by_source false (ok []) = from_manifest-first src vendor
      by_source false (ok (c ∷ s)) = by_major (extract_major_version (c ∷ s))
