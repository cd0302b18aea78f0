-- ===== src/Java/Sdkman/Entries.antt =====
-- The entries that lines of .sdkmanrc have.
use jvm_vendors.Base.{ℕ, ◌≡◌, refl, false, some, ◌∷◌, ◌++◌, arith, All-append, ◌==◌}
use jvm_vendors.Base.Result.{ok}
use jvm_vendors.Base.Text.{Text, is_space, trim_space, trim_space-nonempty, lower}
use jvm_vendors.Base.Text.Split.{Lacks, cut-append, cut-Lacks}
use jvm_vendors.Java.Sdkman.{is_blank, read_line, key_value, entry, info, or_none}

hash_not_blank : (s t : Text) → is_blank (s ++ b'#' ∷ t) ≡ false
unfolding is_space
hash_not_blank s t = trim_space-nonempty s t b'#' refl

equals_not_blank : (s t : Text) → is_blank (s ++ b'=' ∷ t) ≡ false
unfolding is_space
equals_not_blank s t = trim_space-nonempty s t b'=' refl

dash_not_blank : (s t : Text) → is_blank (s ++ b'-' ∷ t) ≡ false
unfolding is_space
dash_not_blank s t = trim_space-nonempty s t b'-' refl

-- A comment makes no difference: behind a text without `#` it is read as if it were not there.
pub read_line-comment :
    (other : ℕ → ℕ) (s comment : Text)
    → Lacks b'#' s
    → read_line other (s ++ b'#' ∷ comment) ≡ read_line other s
unfolding read_line
read_line-comment other s comment h =
    rw (hash_not_blank s comment, cut-append b'#' s comment h, cut-Lacks b'#' s h) (ground arith)

All-equals :
    (key value : Text) → Lacks b'#' key → Lacks b'#' value → Lacks b'#' (key ++ b'=' ∷ value)
All-equals key value hk hv = All-append (λ c. (c == b'#') ≡ false) key (b'=' ∷ value) hk (refl, hv)

-- A line `key=version-vendor` has the entry of these three, trimmed, with the key and the vendor in
-- lower case; a further dash belongs to the vendor, and a further equals sign to the value.
pub read_line-entry :
    (other : ℕ → ℕ) (key version vendor : Text)
    → Lacks b'#' key
    → Lacks b'=' key
    → Lacks b'#' version
    → Lacks b'-' version
    → Lacks b'#' vendor
    → read_line other (key ++ b'=' ∷ (version ++ b'-' ∷ vendor))
      ≡ ok (
          some (record {
            kind = lower other (trim_space key);
            version = trim_space version;
            vendor = lower other (trim_space vendor);
          }))
unfolding read_line key_value entry info or_none
read_line-entry other key version vendor hk he hv hd hw =
    let value = version ++ b'-' ∷ vendor in
    let clean =
      All-equals key value hk
        (All-append (λ c. (c == b'#') ≡ false) version (b'-' ∷ vendor) hv (refl, hw)) in
    rw
      (
        equals_not_blank key value,
        cut-Lacks b'#' (key ++ b'=' ∷ value) clean,
        equals_not_blank key value,
        cut-append b'=' key value he,
        dash_not_blank version vendor,
        cut-append b'-' version vendor hd,
      )
      refl
