-- ===== src/Helper/Providers/Recorded.antt =====
-- The security providers of a runtime, from the layer that records them to the helper that
-- configures them.
use jvm_vendors.Base.{
  ℕ, ◌≡◌, refl, ap, ◌∙◌, true, false, Option, none, some, List, [], ◌∷◌, ◌++◌, map, arith, All,
  All-imp, All-append, ◌==◌, is_nil, Bool-cases, inl, inr,
}
use mathlib.Core.Option.{Option-elim}
use mathlib.Core.List.{Perm, filter_map}
use mathlib.Core.List.Perm
use jvm_vendors.Base.Result.{ok}
use jvm_vendors.Base.Text.{Text, codes, join, is_digit}
use jvm_vendors.Base.Text.Decimal.{IsDigit}
use jvm_vendors.Base.Text.Sorting.{sort, text_order, text_leq}
use jvm_vendors.Base.Text.Split.{split, split-join, Lacks}
use jvm_vendors.Base.Sorting.{sort-perm, sort-All, insert, sort as sort_by}
use jvm_vendors.Helper.Providers.{match_provider, collect, compact, is_word}
use jvm_vendors.Helper.Providers.Indexed.{match_provider-indexed}
use jvm_vendors.Helper.Providers.Places.{names, name_of, compact-collect-perm}
use jvm_vendors.Java.Runtime.{indexed_provider, providers_text}

-- A key of digits and the name of a provider.
unfoldable pub IsEntry : Text × Text → Type 0
IsEntry (k, v) =
    (is_nil k ≡ false) × All IsDigit k × (is_nil v ≡ false) × All (λ c. is_word c ≡ true) v

pub indexed-match : (e : Text × Text) → IsEntry e → match_provider (indexed_provider e) ≡ some e
unfolding indexed_provider IsEntry
indexed-match ([], v) (hk, hd, hv, hw) = cc
indexed-match ((d ∷ ds), []) (hk, hd, hv, hw) = cc
indexed-match ((d ∷ ds), (c ∷ w)) (hk, hd, hv, hw) = match_provider-indexed d ds c w hd hw

digit-space : (c : ℕ) → IsDigit c → (c == b' ') ≡ false
unfolding is_digit
digit-space c h = ground arith

word-space : (c : ℕ) → is_word c ≡ true → (c == b' ') ≡ false
unfolding is_word
word-space c h = ground arith

indexed-Lacks : (e : Text × Text) → IsEntry e → Lacks b' ' (indexed_provider e)
unfolding indexed_provider IsEntry
indexed-Lacks (k, v) (hk, hd, hv, hw) =
    let lacks = λ (c : ℕ). (c == b' ') ≡ false in
    All-append lacks k (b'|' ∷ v) (All-imp IsDigit lacks digit-space k hd)
      (refl, All-imp (λ c. is_word c ≡ true) lacks word-space v hw)

name_in : Option (Text × Text) → Option Text
name_in none = none
name_in (some e) = some e.1

abbrev name : Text → Option Text
name s = name_in (match_provider s)

name_of-name_in :
    (o : Option (Text × Text)) (ns : List Text)
    → name_of o ++ ns ≡ Option-elim (name_in o) ns (λ n. n ∷ ns)
unfolding name_of name_in Option-elim
name_of-name_in none ns = refl
name_of-name_in (some e) ns = refl

names-filter_map : (ss : List Text) → names ss ≡ filter_map name ss
unfolding names filter_map
names-filter_map [] = refl
names-filter_map (s ∷ ss) =
    ap (λ ns. name_of (match_provider s) ++ ns) (names-filter_map ss)
    ∙ name_of-name_in (match_provider s) (filter_map name ss)

pub names-Perm : {ss ts : List Text} → Perm ss ts → Perm (names ss) (names ts)
names-Perm {ss} {ts} p = rw (names-filter_map ss, names-filter_map ts) (Perm.filter_map name p)

pub names-map :
    (entries : List (Text × Text))
    → All IsEntry entries
    → names (map indexed_provider entries) ≡ map (λ e. e.1) entries
unfolding names name_of
names-map [] h = refl
names-map (e ∷ entries) (he, h) = rw (indexed-match e he, names-map entries h)

entries-Lacks :
    (entries : List (Text × Text))
    → All IsEntry entries
    → All (Lacks b' ') (map indexed_provider entries)
entries-Lacks [] h = tt
entries-Lacks (e ∷ entries) (he, h) = (indexed-Lacks e he, entries-Lacks entries h)

-- The text of the providers is split into the sorted entries.
pub split-providers_text :
    (entries : List (Text × Text))
    → is_nil (sort (map indexed_provider entries)) ≡ false
    → All IsEntry entries
    → split b' ' (providers_text entries) ≡ sort (map indexed_provider entries)
unfolding providers_text
split-providers_text entries n h =
    go (sort (map indexed_provider entries)) n
      (sort-All text_order (Lacks b' ') (map indexed_provider entries) (entries-Lacks entries h))
  where
    go :
        (ps : List Text)
        → is_nil ps ≡ false
        → All (Lacks b' ') ps
        → split b' ' (join ps (codes " ")) ≡ ps
    go [] n h = cc
    go (p ∷ ps) n h = split-join b' ' p ps h

insert-nonempty : (s : Text) (ss : List Text) → is_nil (insert text_order s ss) ≡ false
unfolding insert
insert-nonempty s [] = refl
insert-nonempty s (t ∷ ts) = elim (Bool-cases (text_leq s t)) [
  | inl e ↦ rw e refl
  | inr e ↦ rw e refl
]

pub sort-nonempty : (s : Text) (ss : List Text) → is_nil (sort (s ∷ ss)) ≡ false
unfolding sort_by
sort-nonempty s ss = insert-nonempty s (sort ss)

-- Providers that a layer records in BPI_JVM_SECURITY_PROVIDERS, at least one and each under a key of
-- digits and with a name of word characters, are those that the configurer takes from it, if it
-- refuses none: each as often as it is recorded.
pub providers_text-collect :
    (e : Text × Text) (entries : List (Text × Text)) {ps : List Text}
    → All IsEntry (e ∷ entries)
    → collect [] (split b' ' (providers_text (e ∷ entries))) ≡ ok ps
    → Perm (compact ps) (map (λ x. x.1) (e ∷ entries))
providers_text-collect e entries {ps} h c =
    let all = e ∷ entries in
    let sorted = sort (map indexed_provider all) in
    let parts : split b' ' (providers_text all) ≡ sorted =
      split-providers_text all (sort-nonempty (indexed_provider e) (map indexed_provider entries))
        h in
    let read = compact-collect-perm sorted (rw parts at c) in
    let same = names-Perm (sort-perm text_order (map indexed_provider all)) in
    rw (← names-map all h) (Perm.trans read same)
