-- ===== src/Helper/Providers/Appended.antt =====
-- What the configurer appends to the properties file at the start of a container.
use jvm_vendors.Base.{
  ℕ, zero, suc, ltb, leb, ◌&&◌, &&_right, ◌+◌, ◌≡◌, refl, sym, subst, ◌∙◌, ap, Bool, true, Option,
  none, some, List, [], ◌∷◌, ◌++◌, String, arith, All, All-imp, All-append, map, if◌then◌else◌,
}
use mathlib.Core.List.{Perm, append_assoc}
use mathlib.Core.List.Perm
use jvm_vendors.Base.Result.{Result, ok, err}
use jvm_vendors.Base.Sorting.{sort, sort-perm, sort-All}
use jvm_vendors.Base.Text.{Text, codes}
use jvm_vendors.Base.Text.Sorting.{text_order}
use jvm_vendors.Base.Text.Split.{split}
use jvm_vendors.Base.Text.Decimal.{value, decimal}
use jvm_vendors.Calc.Size.{max_i64}
use jvm_vendors.Java.Runtime.{providers_text, indexed_provider}
use jvm_vendors.Helper.Providers.{
  ProviderError, bad_index, add_match, place, place_from_one, PropertiesFile, match_provider,
  collect, compact, provider_lines, provider_line, write_all, written, append_providers, space,
  configure, execute,
}
use jvm_vendors.Helper.Providers.Places.{names, name_of, compact-collect-perm}
use jvm_vendors.Helper.Providers.Recorded.{
  IsEntry, names-Perm, indexed-match, names-map, split-providers_text, sort-nonempty,
}

-- Texts one behind the other.
pub concat : List Text → Text
concat [] = []
concat (t ∷ ts) = t ++ concat ts

-- Writes that all succeed leave all texts.
write_all-concat :
    (writes : ℕ → Bool) (n : ℕ) (ts : List Text)
    → ((k : ℕ) → writes k ≡ true)
    → write_all writes n ts ≡ (concat ts, true)
unfolding write_all concat
write_all-concat writes n [] h = refl
write_all-concat writes n (x ∷ ts) h = rw (h n, write_all-concat writes (n + 1) ts h) refl

-- The lines of providers, with numbers from one on.
pub numbered : ℕ → List Text → Text
numbered n [] = []
numbered n (p ∷ ps) =
    (codes "security.provider." ++ (decimal n ++ (codes "=" ++ (p ++ codes "\n"))))
    ++ numbered (n + 1) ps

concat-provider_lines :
    (i : ℕ) (ps : List Text) → concat (provider_lines i ps) ≡ numbered (i + 1) ps
unfolding concat provider_lines provider_line numbered
concat-provider_lines i [] = refl
concat-provider_lines i (p ∷ ps) =
    ap (λ t. provider_line (i + 1) p ++ t) (concat-provider_lines (i + 1) ps)

-- The text for a list of providers: an empty line, and their lines, numbered from 1 on.
pub providers_block : List Text → Text
unfolding numbered
providers_block ps = codes "\n" ++ numbered 1 ps

providers_block-concat :
    (ps : List Text) → concat (codes "\n" ∷ provider_lines 0 ps) ≡ providers_block ps
unfolding concat providers_block
providers_block-concat ps =
    ap (λ t. codes "\n" ++ t) (concat-provider_lines 0 ps ∙ ap (λ n. numbered n ps) (omega arith))

-- A file that can be opened, and every write to it succeeds.
abbrev pub TakesWrites : PropertiesFile → Type 0
TakesWrites file = (file.writable ≡ true) × (file.opens ≡ true) × ((k : ℕ) → file.writes k ≡ true)

append_providers-block :
    (file : PropertiesFile) (ps : List Text)
    → TakesWrites file
    → append_providers file (ok ps)
      ≡ (ok (providers_block (compact ps)), providers_block (compact ps))
unfolding append_providers written
append_providers-block file ps (w, o, all) =
    let block = codes "\n" ∷ provider_lines 0 (compact ps) in
    rw (append_providers, o, write_all-concat file.writes 0 block all)
      (ap (λ t. (ok t, t)) (providers_block-concat (compact ps)))

-- An entry that the configurer accepts: its index, if it has one, is from 1 on and fits an int.
unfoldable pub is_placeable : Option (Text × Text) → Bool
is_placeable none = true
is_placeable (some ([], name)) = true
is_placeable (some (d ∷ ds, name)) = ltb 0 (value (d ∷ ds)) && leb (value (d ∷ ds)) max_i64

place_from_one-placeable :
    (n : ℕ) (bad : ProviderError) (name : Text) (ps : List Text)
    → (ltb 0 n && leb n max_i64) ≡ true
    → (qs : List Text) × ((if leb n max_i64 then place_from_one n name ps else err bad) ≡ ok qs)
unfolding place_from_one
place_from_one-placeable zero bad name ps h = cc
place_from_one-placeable (suc i) bad name ps h =
    (place i name ps, rw (&&_right (ltb 0 (suc i)) (leb (suc i) max_i64) h) refl)

add_match-placeable :
    (ps : List Text) (o : Option (Text × Text))
    → is_placeable o ≡ true
    → (qs : List Text) × (add_match ps o ≡ ok qs)
unfolding add_match is_placeable
add_match-placeable ps none h = (ps, refl)
add_match-placeable ps (some ([], name)) h = (ps ++ name ∷ [], refl)
add_match-placeable ps (some (d ∷ ds, name)) h =
    place_from_one-placeable (value (d ∷ ds)) (bad_index (d ∷ ds)) name ps h

abbrev pub IsPlaceable : Text → Type 0
IsPlaceable entry = is_placeable (match_provider entry) ≡ true

collect-placeable :
    (ps entries : List Text)
    → All IsPlaceable entries
    → (qs : List Text) × (collect ps entries ≡ ok qs)
unfolding collect
collect-placeable ps [] h = (ps, refl)
collect-placeable ps (entry ∷ entries) (h, hs) =
    let (next, e) = add_match-placeable ps (match_provider entry) h in
    let (qs, f) = collect-placeable next entries hs in (qs, rw e f)

names-append : (ss ts : List Text) → names (ss ++ ts) ≡ names ss ++ names ts
unfolding names
names-append [] ts = refl
names-append (s ∷ ss) ts =
    ap (λ ns. name_of (match_provider s) ++ ns) (names-append ss ts)
    ∙ sym (append_assoc (name_of (match_provider s)) (names ss) (names ts))

-- The providers of the runtime and those that are added, once all entries are accepted.
collect-recorded :
    (e : Text × Text) (entries : List (Text × Text)) (added : List Text) {ps : List Text}
    → All IsEntry (e ∷ entries)
    → collect [] (split space (providers_text (e ∷ entries)) ++ added) ≡ ok ps
    → Perm (compact ps) (map (λ x. x.1) (e ∷ entries) ++ names added)
collect-recorded e entries added {ps} h c =
    let all = e ∷ entries in
    let sorted = sort text_order (map indexed_provider all) in
    let parts : split b' ' (providers_text all) ≡ sorted =
      split-providers_text all (sort-nonempty (indexed_provider e) (map indexed_provider entries))
        h in
    let read = compact-collect-perm (sorted ++ added) (rw parts at c) in
    let same = names-Perm (sort-perm text_order (map indexed_provider all)) in
    Perm.trans (rw (names-append sorted added) at read) (
      subst (λ ns. Perm (names sorted ++ names added) (ns ++ names added)) (names-map all h)
        (Perm.append_right (names added) same))

execute-configure :
    (env : String → Option Text) (file : PropertiesFile) (builtin added path : Text)
    → env "SECURITY_PROVIDERS" ≡ some added
    → env "BPI_JVM_SECURITY_PROVIDERS" ≡ some builtin
    → env "JAVA_SECURITY_PROPERTIES" ≡ some path
    → execute env file ≡ configure file builtin added
unfolding execute
execute-configure env file builtin added path ha hb hp = rw (execute, ha, hb, hp) refl

configure-writable :
    (file : PropertiesFile) (builtin added : Text)
    → file.writable ≡ true
    → configure file builtin added
      ≡ append_providers file (collect [] (split space builtin ++ split space added))
unfolding configure
configure-writable file builtin added w = simp (w)

-- An entry of the runtime: a key of digits from 1 on that fits an int, and a name of word characters.
abbrev pub IsRecorded : Text × Text → Type 0
IsRecorded e = IsEntry e × (is_placeable (some e) ≡ true)

map-IsPlaceable :
    (entries : List (Text × Text))
    → All IsRecorded entries
    → All IsPlaceable (map indexed_provider entries)
map-IsPlaceable [] h = tt
map-IsPlaceable (e ∷ entries) ((he, hp), h) =
    (rw (indexed-match e he) hp, map-IsPlaceable entries h)

entries-IsPlaceable :
    (e : Text × Text) (entries : List (Text × Text)) (added : List Text)
    → All IsRecorded (e ∷ entries)
    → All IsPlaceable added
    → All IsPlaceable (split space (providers_text (e ∷ entries)) ++ added)
entries-IsPlaceable e entries added h k =
    let parts =
      split-providers_text (e ∷ entries)
        (sort-nonempty (indexed_provider e) (map indexed_provider entries))
        (All-imp IsRecorded IsEntry (λ x hx. hx.0) (e ∷ entries) h) in
    All-append IsPlaceable (split space (providers_text (e ∷ entries))) added
      (subst (λ ss. All IsPlaceable ss) (sym parts)
        (sort-All text_order IsPlaceable (map indexed_provider (e ∷ entries))
          (map-IsPlaceable (e ∷ entries) h)))
      k

-- What the configurer has to append for the providers of a runtime and the entries of a user: a block
-- of numbered lines for a list which has the providers of both, each as often as it is named there.
pub record Appends (entries : List (Text × Text)) (added : Text)
    (outcome : Result ProviderError Text × Text) : Type 0 where
  pub providers : List Text
  pub succeeds : outcome ≡ (ok (providers_block providers), providers_block providers)
  pub same : Perm providers (map (λ x. x.1) entries ++ names (split space added))

-- Where a runtime has recorded its providers, at least one, the indexes of the user's entries are from
-- 1 on and fit an int, and the properties file takes all writes, the configurer succeeds, and appends
-- just the block of the providers of both.
pub execute-Appends :
    (env : String → Option Text) (file : PropertiesFile) (e : Text × Text)
    (entries : List (Text × Text)) (added path : Text)
    → env "SECURITY_PROVIDERS" ≡ some added
    → env "BPI_JVM_SECURITY_PROVIDERS" ≡ some (providers_text (e ∷ entries))
    → env "JAVA_SECURITY_PROPERTIES" ≡ some path
    → All IsRecorded (e ∷ entries)
    → All IsPlaceable (split space added)
    → TakesWrites file
    → Appends (e ∷ entries) added (execute env file)
execute-Appends env file e entries added path ha hb hp h k takes =
    let all = split space (providers_text (e ∷ entries)) ++ split space added in
    let (ps, c) =
      collect-placeable [] all (entries-IsPlaceable e entries (split space added) h k) in
    record {
      providers = compact ps;
      succeeds =
          execute-configure env file (providers_text (e ∷ entries)) added path ha hb hp
          ∙ configure-writable file (providers_text (e ∷ entries)) added takes.0
          ∙ ap (append_providers file) c
          ∙ append_providers-block file ps takes;
      same =
          collect-recorded e entries (split space added)
            (All-imp IsRecorded IsEntry (λ x hx. hx.0) (e ∷ entries) h) c;
    }
