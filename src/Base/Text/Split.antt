-- ===== src/Base/Text/Split.antt =====
-- `strings.Split` and `strings.SplitN(…, 2)` at a separator of one character.
use jvm_vendors.Base.Tests.{◌==◌, if◌then◌else◌}
use Prim.Native.Nat.{ℕ}
use mathlib.Core.Path.{◌≡◌, refl, ap, ◌∙◌}
use mathlib.Core.Logic.{◌≢◌}
use mathlib.Core.Option.{Option, none, some}
use mathlib.Core.Bool.{false}
use mathlib.Core.List.{List, [], ◌∷◌, ◌++◌}
use native.Mathlib.Omega.{arith}
use jvm_vendors.Base.Lists.{All}
use jvm_vendors.Base.Text.{Text, join}

-- A character in front of the first part.
abbrev pub cons_first : ℕ → List Text → List Text
cons_first c [] = (c ∷ []) ∷ []
cons_first c (p ∷ ps) = (c ∷ p) ∷ ps

unfoldable pub split : ℕ → Text → List Text
split sep [] = [] ∷ []
split sep (c ∷ s) = let rest = split sep s in if c == sep then [] ∷ rest else cons_first c rest

-- The text before the first separator, and the text behind it if there is one.
unfoldable pub cut : ℕ → Text → Text × Option Text
cut sep [] = ([], none)
cut sep (c ∷ s) = let (a, b) = cut sep s in if c == sep then ([], some s) else (c ∷ a, b)

abbrev pub Lacks : ℕ → Text → Type 0
Lacks sep = All (λ c. (c == sep) ≡ false)

split-ne-nil : (sep : ℕ) (s : Text) → split sep s ≢ []
unfolding split
split-ne-nil sep [] = ground arith
split-ne-nil sep (c ∷ s) = ground arith

join-cons_first :
    (c : ℕ) (ps : List Text) (sep : Text) → ps ≢ [] → join (cons_first c ps) sep ≡ c ∷ join ps sep
unfolding join
join-cons_first c [] sep h = absurd (h refl)
join-cons_first c (p ∷ []) sep h = refl
join-cons_first c (p ∷ q ∷ ps) sep h = refl

join-nil_first : (ps : List Text) (sep : Text) → ps ≢ [] → join ([] ∷ ps) sep ≡ sep ++ join ps sep
unfolding join
join-nil_first [] sep h = absurd (h refl)
join-nil_first (p ∷ ps) sep h = refl

-- Joining the parts gives the text back.
pub join-split : (sep : ℕ) (s : Text) → join (split sep s) (sep ∷ []) ≡ s
unfolding split
join-split sep [] = unfold join in refl
join-split sep (c ∷ s) = ground (
  arith,
  join-cons_first c (split sep s) (sep ∷ []) (split-ne-nil sep s),
  join-nil_first (split sep s) (sep ∷ []) (split-ne-nil sep s),
  join-split sep s,
)

-- A text is cut at its first separator.
pub cut-append : (sep : ℕ) (s t : Text) → Lacks sep s → cut sep (s ++ sep ∷ t) ≡ (s, some t)
unfolding cut
cut-append sep [] t h = ground arith
cut-append sep (c ∷ s) t (hc, hs) = rw (hc, cut-append sep s t hs)

pub cut-Lacks : (sep : ℕ) (s : Text) → Lacks sep s → cut sep s ≡ (s, none)
unfolding cut
cut-Lacks sep [] h = refl
cut-Lacks sep (c ∷ s) (hc, hs) = rw (hc, cut-Lacks sep s hs)

-- A text is split at its first separator.
pub split-append : (sep : ℕ) (s t : Text) → Lacks sep s → split sep (s ++ sep ∷ t) ≡ s ∷ split sep t
unfolding split
split-append sep [] t h = ground arith
split-append sep (c ∷ s) t (hc, hs) = rw (hc, split-append sep s t hs)

pub split-Lacks : (sep : ℕ) (s : Text) → Lacks sep s → split sep s ≡ s ∷ []
unfolding split
split-Lacks sep [] h = refl
split-Lacks sep (c ∷ s) (hc, hs) = rw (hc, split-Lacks sep s hs)

-- Parts without the separator that are joined with it are split again.
pub split-join :
    (sep : ℕ) (p : Text) (ps : List Text)
    → All (Lacks sep) (p ∷ ps)
    → split sep (join (p ∷ ps) (sep ∷ [])) ≡ p ∷ ps
unfolding join
split-join sep p [] (hp, h) = split-Lacks sep p hp
split-join sep p (q ∷ ps) (hp, h) =
    split-append sep p (join (q ∷ ps) (sep ∷ [])) hp ∙ ap (λ r. p ∷ r) (split-join sep q ps h)
