-- ===== src/Helper/Providers/Faults.antt =====
-- The configurer does not lack a variable that is set.
use jvm_vendors.Base.{
  ℕ, ◌≡◌, ◌≢◌, refl, Bool, true, false, Option, none, some, List, [], ◌∷◌, ◌++◌, String, leb, zero,
  suc, if-both,
}
use jvm_vendors.Base.Result.{Result, ok, err, FailsWith, >>=-FailsWith}
use jvm_vendors.Base.Text.{Text}
use jvm_vendors.Base.Text.Split.{split}
use jvm_vendors.Base.Text.Decimal.{value}
use jvm_vendors.Calc.Size.{max_i64}
use jvm_vendors.Helper.Providers.{
  ProviderError, missing_variable, cannot_open, PropertiesFile, match_provider, add_match,
  place_from_one, collect, written, append_providers, space, configure, execute,
}

-- An error that is not a variable that is missing.
abbrev pub NamesNone : ProviderError → Type 0
NamesNone e = (k : String) → e ≢ missing_variable k

place_from_one-NamesNone :
    (i : ℕ) (name : Text) (ps : List Text) → FailsWith NamesNone (place_from_one i name ps)
unfolding place_from_one
place_from_one-NamesNone zero name ps = λ k h. cc
place_from_one-NamesNone (suc i) name ps = tt

in_range-NamesNone :
    (ps : List Text) (d : ℕ) (ds name : Text) (b : Bool)
    → leb (value (d ∷ ds)) max_i64 ≡ b
    → FailsWith NamesNone (add_match ps (some (d ∷ ds, name)))
unfolding add_match
in_range-NamesNone ps d ds name true e =
    rw (e, FailsWith) (place_from_one-NamesNone (value (d ∷ ds)) name ps)
in_range-NamesNone ps d ds name false e = rw (e, FailsWith) (λ k h. cc)

add_match-NamesNone :
    (ps : List Text) (o : Option (Text × Text)) → FailsWith NamesNone (add_match ps o)
unfolding add_match
add_match-NamesNone ps none = tt
add_match-NamesNone ps (some ([], name)) = tt
add_match-NamesNone ps (some (d ∷ ds, name)) = in_range-NamesNone ps d ds name _ refl

collect-NamesNone : (ps entries : List Text) → FailsWith NamesNone (collect ps entries)
unfolding collect
collect-NamesNone ps [] = tt
collect-NamesNone ps (entry ∷ entries) =
    >>=-FailsWith NamesNone (add_match ps (match_provider entry)) _
      (add_match-NamesNone ps (match_provider entry)) (λ ps' h. collect-NamesNone ps' entries)

written-NamesNone : (t : Text × Bool) → FailsWith NamesNone (written t).0
unfolding written
written-NamesNone (t, true) = tt
written-NamesNone (t, false) = λ k h. cc

abbrev HasNone : Result ProviderError Text × Text → Type 0
HasNone x = FailsWith NamesNone x.0

append_providers-NamesNone :
    (file : PropertiesFile) (r : Result ProviderError (List Text))
    → FailsWith NamesNone r
    → FailsWith NamesNone (append_providers file r).0
unfolding append_providers
append_providers-NamesNone file (err e) h = h
append_providers-NamesNone file (ok ps) h =
    if-both HasNone file.opens _ (err cannot_open, []) (written-NamesNone _) (λ k h. cc)

configure-NamesNone :
    (file : PropertiesFile) (builtin added : Text)
    → FailsWith NamesNone (configure file builtin added).0
unfolding configure
configure-NamesNone file builtin added =
    if-both HasNone file.writable _ (ok [], [])
      (append_providers-NamesNone file _
        (collect-NamesNone [] (split space builtin ++ split space added)))
      (tt)

pub execute-NamesNone :
    (env : String → Option Text) (file : PropertiesFile) (builtin path : Text) (o : Option Text)
    → env "BPI_JVM_SECURITY_PROVIDERS" ≡ some builtin
    → env "JAVA_SECURITY_PROPERTIES" ≡ some path
    → env "SECURITY_PROVIDERS" ≡ o
    → FailsWith NamesNone (execute env file).0
unfolding execute
execute-NamesNone env file builtin path none hb hp e = rw (e, FailsWith) tt
execute-NamesNone env file builtin path (some added) hb hp e =
    rw (e, hb, hp, FailsWith) (configure-NamesNone file builtin added)
