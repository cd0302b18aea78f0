-- ===== src/Java/Programs.antt =====
-- NewBuild of build.go, cmd/main/main.go and cmd/helper/main.go: the options of a build, those of the
-- buildpack that is shipped, and the helpers that the program of the helper layer knows by name.
pub mod Shipped
mod Tests
use jvm_vendors.Base.{
  ◌≡◌, refl, true, false, Bool, ◌++◌, ◌&&◌, &&_left, &&_right, List, [], ◌∷◌, All, Bool-cases, inl,
  inr, if◌then◌else◌,
}
use jvm_vendors.Base.Text.{Text, codes, text_eq}
use jvm_vendors.Versions.{Semver, is_before_java9, is_before_java17}
use jvm_vendors.Java.Vendors.{has}
use jvm_vendors.Java.Plan.{
  NativeImage, Context, add_custom, standard_helpers, for_version, fixed_helpers, by_java9,
  by_java17,
}

-- The fields of `Build` that options set.
pub record Build : Type 0 where
  pub native : NativeImage
  pub custom_helpers : List Text

abbrev pub BuildOption : Type 0
BuildOption = Build → Build

-- WithNativeImage
unfoldable pub with_native_image : NativeImage → BuildOption
with_native_image native b = record b { native = native }

-- WithCustomHelpers
unfoldable pub with_custom_helpers : List Text → BuildOption
with_custom_helpers names b = record b { custom_helpers = names }

-- The loop of NewBuild over its options.
with_options : Build → List BuildOption → Build
with_options b [] = b
with_options b (option ∷ options) = with_options (option b) options

-- NewBuild
unfoldable pub new_build : List BuildOption → Build
unfolding with_options
new_build options =
    with_options
      (record {
        native = record { bundled_with_jdk = false; custom_command = []; custom_args = [] };
        custom_helpers = [];
      })
      options

-- The context of a build with these options.
abbrev pub in_context : {D : Type 0} → Build → Context D → Context D
in_context b c = record c { native = b.native; custom_helpers = b.custom_helpers }

abbrev pub shipped_native_image : NativeImage
shipped_native_image = record { bundled_with_jdk = true; custom_command = []; custom_args = [] }

abbrev pub shipped_custom_helpers : List Text
shipped_custom_helpers = codes "nmt" ∷ []

-- The build of the buildpack that is shipped.
unfoldable pub shipped_build : Build
unfolding new_build with_native_image with_custom_helpers
shipped_build =
    new_build
      (with_native_image shipped_native_image ∷ with_custom_helpers shipped_custom_helpers ∷ [])

-- The keys of the map that `sherpa.Helpers` gets.
abbrev pub known_helpers : List Text
known_helpers =
    codes "active-processor-count"
    ∷ codes "java-opts"
    ∷ codes "jvm-heap"
    ∷ codes "link-local-dns"
    ∷ codes "memory-calculator"
    ∷ codes "openssl-certificate-loader"
    ∷ codes "security-providers-classpath-8"
    ∷ codes "security-providers-classpath-9"
    ∷ codes "security-providers-configurer"
    ∷ codes "debug-8"
    ∷ codes "debug-9"
    ∷ codes "jmx"
    ∷ codes "nmt"
    ∷ codes "jfr"
    ∷ []

pub IsKnown : Text → Type 0
IsKnown name = has known_helpers name ≡ true

all_known : List Text → Bool
all_known [] = true
all_known (name ∷ names) = has known_helpers name && all_known names

All-all_known : (names : List Text) → all_known names ≡ true → All IsKnown names
unfolding all_known IsKnown
All-all_known [] h = tt
All-all_known (name ∷ names) h = (
  &&_left (has known_helpers name) (all_known names) h,
  All-all_known names (&&_right (has known_helpers name) (all_known names) h),
)

-- The helpers, by whether the version is before Java 9 and before Java 17.
shipped : Bool → Bool → List Text
shipped b9 b17 = add_custom (fixed_helpers ++ (by_java9 b9 ++ by_java17 b17)) shipped_custom_helpers

shipped-all_known : (b9 b17 : Bool) → all_known (shipped b9 b17) ≡ true
unfolding shipped all_known add_custom fixed_helpers by_java9 by_java17 has text_eq
shipped-all_known true true = refl
shipped-all_known true false = refl
shipped-all_known false true = refl
shipped-all_known false false = refl

-- For each version, the shipped buildpack gives the helper layer only names that the program of the
-- helper layer knows.
pub standard_helpers-IsKnown :
    {V : Type 0} (sv : Semver V) (version : Text)
    → All IsKnown (add_custom (standard_helpers sv version) shipped_custom_helpers)
unfolding standard_helpers for_version shipped
standard_helpers-IsKnown sv version =
    All-all_known _ (shipped-all_known (is_before_java9 sv version) (is_before_java17 sv version))
