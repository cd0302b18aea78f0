-- ===== src/Java/Tests.antt =====
-- The buildpack on concrete inputs: dependencies are versions, versions are numbers.
use mathlib.Core.Option
use jvm_vendors.Java.Jlink.{jlink_args}
use jvm_vendors.Java.Jlink.Arguments.{
  HasNoOutput, Keeps, completed, module_args, output_args, jlink_args-Keeps,
}
use jvm_vendors.Java.Vendors.{load_jvm_vendors, detect, resolved, pass, offered_plans, has}
use jvm_vendors.Java.Vendors.Offer.{Item, item_text, IsItem, detect_iff}
use jvm_vendors.Base.{◌↔◌, ◌⊎◌, is_nil, All, map}
use jvm_vendors.Java.Vendors.{has, load_jvm_vendors}
use jvm_vendors.Base.{
  ℕ, ◌≡◌, refl, true, false, none, some, List, [], ◌∷◌, ◌++◌, if◌then◌else◌, ltb,
}
use mathlib.Core.List.Perm
use jvm_vendors.Base.Files.{not_found}
use jvm_vendors.Base.Result.{ok}
use jvm_vendors.Base.Text.{is_space, join, IsOneOf, Text, codes, trim_space, lower, text_eq}
use jvm_vendors.Base.Text.Split.{split}
use jvm_vendors.Base.Text.Decimal.{value}
use jvm_vendors.Versions.{Semver}
use jvm_vendors.Java.Sdkman.{read_line}
use jvm_vendors.Java.Sdkman.Entries.{read_line-entry}
use jvm_vendors.Java.Version.{Sources, get_jvm_version, Resolution, found, no_valid_dependencies}
use jvm_vendors.Java.Version.Precedence.{
  first_version, user_version, sdkmanrc_version, manifest_version, get_jvm_version-first,
}
use jvm_vendors.Java.Plan.{
  dependency_or_empty, entry_of, contributions, contribute_jdk, Context, build, add_custom, jdk,
}
use jvm_vendors.Java.Plan.Helpers.{Distinct, IsAdded, add_custom-IsAdded-Distinct}
use jvm_vendors.Java.Plan.Shapes.{Shape, build-Shape}
use jvm_vendors.Java.Runtime.{providers_text}
use jvm_vendors.Java.Runtime.Order.{providers_text-Perm}

abbrev same : ℕ → ℕ
same c = c

read_line-entry_example :
    read_line same (codes "Java" ++ b'=' ∷ (codes "17" ++ b'-' ∷ codes "TEM"))
    ≡ ok (
        some (record {
          kind = lower same (trim_space (codes "Java"));
          version = trim_space (codes "17");
          vendor = lower same (trim_space (codes "TEM"));
        }))
read_line-entry_example =
    read_line-entry same (codes "Java") (codes "17") (codes "TEM")
      (refl, (refl, (refl, (refl, tt)))) (refl, (refl, (refl, (refl, tt)))) (refl, (refl, tt))
      (refl, (refl, tt)) (refl, (refl, (refl, tt)))

-- Only version 18 is there.
abbrev only_18 : Text → Text → Resolution ℕ
only_18 name version = if text_eq version (codes "18") then found 18 else no_valid_dependencies

-- Neither set explicitly nor in .sdkmanrc, and 17 in the manifest.
abbrev from_17 : Sources
from_17 = record {
  configured = codes "21";
  explicit = false;
  sdkmanrc = not_found;
  manifest = some (λ k. some (codes "17"));
}

get_jvm_version-first_example :
    get_jvm_version same only_18 from_17 (codes "v")
    ≡ first_version
        (user_version same only_18 from_17
          ∷ sdkmanrc_version same only_18 from_17
          ∷ manifest_version same only_18 from_17 (codes "v")
          ∷ [])
        (codes "21")
get_jvm_version-first_example = get_jvm_version-first same only_18 from_17 (codes "v")

one_name : Distinct (codes "jmx" ∷ [])
unfolding Distinct has
one_name = (refl, tt)

add_custom-IsAdded-Distinct_example :
    IsAdded (codes "jmx" ∷ []) (codes "x" ∷ codes "jmx" ∷ codes "y" ∷ [])
    × Distinct (add_custom (codes "jmx" ∷ []) (codes "x" ∷ codes "jmx" ∷ codes "y" ∷ []))
add_custom-IsAdded-Distinct_example =
    add_custom-IsAdded-Distinct (codes "jmx" ∷ []) (codes "x" ∷ codes "jmx" ∷ codes "y" ∷ [])
      one_name

providers_text-Perm_example :
    providers_text ((codes "1", codes "A") ∷ (codes "2", codes "B") ∷ [])
    ≡ providers_text ((codes "2", codes "B") ∷ (codes "1", codes "A") ∷ [])
providers_text-Perm_example =
    providers_text-Perm (Perm.swap (codes "2", codes "B") (codes "1", codes "A") [])

abbrev versions : Semver ℕ
versions = record { new_version = λ s. some (value s); less_than = ltb }

-- A build that requires a JDK.
abbrev context : Context ℕ
context = record {
  plan = record {
    jdk_required = some true;
    jre_required = some (false, record { build = none; cache = none; launch = none });
    native_required = some false;
  };
  jre_metadata_nil = false;
  metadata_ok = true;
  configuration_ok = true;
  dependencies_ok = true;
  cache_ok = true;
  vendors = codes "v";
  vendor = [];
  jvm_type = codes "JRE";
  jlink_enabled = false;
  jlink_words = some [];
  jlink_explicit = false;
  certificates_ok = true;
  sources = record {
    configured = codes "18";
    explicit = true;
    sdkmanrc = not_found;
    manifest = none;
  };
  resolve = only_18;
  empty = 0;
  version_of = λ d. codes "18";
  custom_helpers = [];
  native = record { bundled_with_jdk = true; custom_command = []; custom_args = [] };
}

built : build versions same context ≡ ok (jdk 18 ∷ [])
unfolding build entry_of load_jvm_vendors split trim_space is_space get_jvm_version contributions
    text_eq contribute_jdk dependency_or_empty
built = refl

build-Shape_example : Shape versions same context (jdk 18 ∷ [])
build-Shape_example = build-Shape versions same context built

abbrev user_args : List Text
user_args = codes "--output" ∷ codes "x" ∷ codes "--add-modules" ∷ codes "y" ∷ []

jlink_args-Keeps_example :
    (kept : List Text) × Keeps same user_args kept
    × HasNoOutput same kept
    × (jlink_args same true user_args none (codes "/l") ≡ completed same kept none (codes "/l"))
    × (jlink_args same false user_args none (codes "/l")
        ≡ Option.map (λ m. user_args ++ (module_args same m ++ output_args same (codes "/l"))) none)
jlink_args-Keeps_example = jlink_args-Keeps same user_args none (codes "/l")

-- A list of two vendors with spaces around one of them, and a blank item between them.
abbrev first_item : Item
first_item = record { front = codes " "; name = codes "a"; back = codes " " }

abbrev more_items : List Item
more_items =
    record { front = codes " "; name = []; back = [] }
    ∷ record { front = []; name = codes "b"; back = [] }
    ∷ []

items-IsItem : All IsItem (first_item ∷ more_items)
unfolding is_space
items-IsItem = (
  record {
    front_blank = (refl, tt);
    name_whole = (refl, tt);
    no_comma = (refl, tt);
    back_blank = (refl, tt);
  },
  (
    record { front_blank = (refl, tt); name_whole = tt; no_comma = tt; back_blank = tt },
    (
      record { front_blank = tt; name_whole = (refl, tt); no_comma = (refl, tt); back_blank = tt },
      tt,
    ),
  ),
)

items-nonempty : is_nil (join (map item_text (first_item ∷ more_items)) (codes ",")) ≡ false
unfolding join
items-nonempty = refl

detect_iff_example :
    (load_jvm_vendors (join (map item_text (first_item ∷ more_items)) (codes ","))
      ≡ some (codes "a" ∷ codes "b" ∷ []))
    × ((detect (resolved (join (map item_text (first_item ∷ more_items)) (codes ",")) (codes "b"))
          ≡ ok (pass offered_plans))
        ↔ ((codes "b" ≡ []) ⊎ IsOneOf (codes "b") (codes "a" ∷ codes "b" ∷ [])))
detect_iff_example = detect_iff first_item more_items (codes "b") items-IsItem items-nonempty
