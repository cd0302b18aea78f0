-- ===== src/Java/Version.antt =====
-- jvm_version.go: the Java version, from the configuration, .sdkmanrc, the manifest or the default.
pub mod Choice
pub mod Precedence
use jvm_vendors.Base.{
  ℕ, ◌-◌, ◌^◌, leb, ◌==◌, ◌≡◌, refl, Bool, true, false, not, ◌&&◌, ◌||◌, Option, none, some, List,
  [], ◌∷◌, ◌++◌, String, if◌then◌else◌, is_nil,
}
use jvm_vendors.Base.Int.{ℤ, pos, sub_ℕ, add64}
use jvm_vendors.Base.Result.{Result, ok, err, ◌>>=◌}
use jvm_vendors.Base.Text.{Text, codes, text_eq}
use jvm_vendors.Base.Text.Split.{split}
use jvm_vendors.Calc.Size.{split_digits}
use jvm_vendors.Base.Text.Decimal.{value, decimal_ℤ}
use jvm_vendors.Base.Files.{FileRead}
use jvm_vendors.Java.Sdkman.{SdkInfo, SdkError, file_missing, read_sdkmanrc}

-- What `DependencyResolver.Resolve` gives: a dependency, libpak.NoValidDependenciesError, or another
-- error.
pub data Resolution (D : Type 0) : Type 0 where
  found : D → Resolution D
  no_valid_dependencies failed : Resolution D

pub data VersionError : Type 0 where
  bad_sdkmanrc : SdkError → VersionError
  bad_manifest index_out_of_range : VersionError

-- `extractMajorVersion`. For the text `1` the second part is read, though there is none.
after_one : List Text → Result VersionError Text
after_one [] = err index_out_of_range
after_one (p ∷ ps) = ok p

major_of : List Text → Result VersionError Text
unfolding after_one
major_of [] = err index_out_of_range
major_of (p ∷ ps) = if text_eq p (codes "1") then after_one ps else ok p

unfoldable pub extract_major_version : Text → Result VersionError Text
unfolding major_of
extract_major_version version = major_of (split b'.' version)

-- The magnitude that `strconv.ParseInt` reads: 0 for a text that is no number, and the largest for
-- a number that is too large, even with other characters behind it if it exceeds 64 bits.
magnitude : ℕ → Text × Text → ℕ
magnitude largest (ds, rest) =
    if leb (2 ^ 64) (value ds)
    then largest
    else if is_nil rest
    then (if leb largest (value ds) then largest else value ds)
    else 0

-- The first result of `strconv.ParseInt(s, 10, 64)`, whatever the error.
unfoldable pub nearest_int : Text → ℤ
unfolding magnitude
nearest_int [] = pos 0
nearest_int (c ∷ s) =
    if c == b'-'
    then sub_ℕ 0 (magnitude (2 ^ 63) (split_digits s))
    else if c == b'+'
    then pos (magnitude (2 ^ 63 - 1) (split_digits s))
    else pos (magnitude (2 ^ 63 - 1) (split_digits (c ∷ s)))

abbrev pub is_no_valid : {D : Type 0} → Resolution D → Bool
is_no_valid no_valid_dependencies = true
is_no_valid _ = false

-- What the choice reads: BP_JVM_VERSION with whether it is set explicitly, the file .sdkmanrc, and
-- the manifest, if it can be loaded.
pub record Sources : Type 0 where
  pub configured : Text
  pub explicit : Bool
  pub sdkmanrc : FileRead
  pub manifest : Option (String → Option Text)

module _ (other : ℕ → ℕ) {D : Type 0} (resolve : Text → Text → Resolution D) where
  java_of : List SdkInfo → Text
  java_of [] = []
  java_of (sdk ∷ sdks) =
      let rest = java_of sdks in if text_eq sdk.kind (codes "java") then sdk.version else rest

  sdkman_version_of : Result SdkError (List SdkInfo) → Result VersionError Text
  sdkman_version_of (ok sdks) = ok (java_of sdks)
  sdkman_version_of (err file_missing) = ok []
  sdkman_version_of (err e) = err (bad_sdkmanrc e)

  -- `readJavaVersionFromSDKMANRCFile`
  unfoldable pub sdkman_version : FileRead → Result VersionError Text
  unfolding sdkman_version_of java_of
  sdkman_version file = sdkman_version_of (read_sdkmanrc other file)

  or_jdk : Option Text → Option Text → Text
  or_jdk (some spec) jdk = spec
  or_jdk none (some jdk) = jdk
  or_jdk none none = []

  -- `readJavaVersionFromMavenMetadata`
  unfoldable pub maven_version : Option (String → Option Text) → Result VersionError Text
  unfolding or_jdk
  maven_version none = err bad_manifest
  maven_version (some get) = ok (or_jdk (get "Build-Jdk-Spec") (get "Build-Jdk"))

  -- No JDK and no JRE of the vendor has the version.
  unfoldable pub is_missing : Text → Text → Bool
  is_missing vendor version =
      is_no_valid (resolve (codes "jdk-" ++ vendor) version)
      && is_no_valid (resolve (codes "jre-" ++ vendor) version)

  -- `strconv.FormatInt` of the number and 1.
  unfoldable pub next_version : Text → Text
  next_version version = decimal_ℤ (add64 (nearest_int version) (pos 1))

  -- `retrieveNextAvailableJavaVersionIfMavenVersionNotAvailable`
  unfoldable pub available_version : Text → Text → Text
  available_version vendor version =
      if is_missing vendor version && not (is_missing vendor (next_version version))
      then next_version version
      else version

  -- From the manifest on, with the default.
  from_manifest : Sources → Text → Result VersionError Text
  from_manifest src vendor = maven_version src.manifest >>= λ maven.
      if is_nil maven
      then ok src.configured
      else (extract_major_version maven >>= λ v. ok (available_version vendor v))

  -- `GetJVMVersion`
  unfoldable pub get_jvm_version : Sources → Text → Result VersionError Text
  unfolding from_manifest
  get_jvm_version src vendor =
      if src.explicit
      then ok src.configured
      else (sdkman_version src.sdkmanrc >>= λ sdkman.
          if is_nil sdkman then from_manifest src vendor else extract_major_version sdkman)
