-- ===== src/Java/Manifest/Folding.antt =====
-- A manifest whose lines are folded is unfolded, for each of the three line endings.
use jvm_vendors.Base.{
  ℕ, ◌≡◌, refl, sym, ap, ◌∙◌, false, List, [], ◌∷◌, ◌++◌, All, ◌==◌, All-append, All-imp,
}
use mathlib.Core.List.{append-nil}
use jvm_vendors.Base.Text.{Text, strip_prefix}
use jvm_vendors.Base.Text.Replace.{replace_from, replace_all, replace_all-append}
use jvm_vendors.Java.Manifest.{lf, cr}

pub data LineEnding : Type 0 where
  unix windows old_mac : LineEnding

abbrev pub ending : LineEnding → Text
ending unix = lf ∷ []
ending windows = cr ∷ lf ∷ []
ending old_mac = cr ∷ []

-- Lines, each with the ending.
unfoldable pub ended : Text → List Text → Text
ended e [] = []
ended e (l ∷ ls) = l ++ (e ++ ended e ls)

-- A logical line: its first part, and the parts on the lines that continue it.
abbrev pub Logical : Type 0
Logical = Text × List Text

unfoldable pub continued : List Text → List Text → List Text
continued [] rest = rest
continued (part ∷ parts) rest = (b' ' ∷ part) ∷ continued parts rest

unfoldable pub folded : List Logical → List Text
unfolding continued
folded [] = []
folded ((first, parts) ∷ ls) = first ∷ continued parts (folded ls)

-- The text of a manifest, and that of its logical lines.
unfoldable pub written : LineEnding → List Logical → Text
unfolding ended folded
written e ls = ended (ending e) (folded ls)

unfoldable pub joined : List Text → Text
joined [] = []
joined (part ∷ parts) = part ++ joined parts

unfoldable pub unfolded : List Logical → Text
unfolding joined
unfolded [] = []
unfolded ((first, parts) ∷ ls) = first ++ (joined parts ++ lf ∷ unfolded ls)

-- No line ending stands in a part, and no line begins with a space.
abbrev pub IsInner : ℕ → Type 0
IsInner c = ((cr == c) ≡ false) × ((lf == c) ≡ false)

unfoldable pub BeginsWithoutSpace : Text → Type 0
BeginsWithoutSpace [] = Unit
BeginsWithoutSpace (c ∷ s) = (b' ' == c) ≡ false

unfoldable pub IsLogical : Logical → Type 0
unfolding BeginsWithoutSpace
IsLogical (first, parts) = All IsInner first × BeginsWithoutSpace first × All (All IsInner) parts

abbrev pub IsLine : Text → Type 0
IsLine = All IsInner

IsLine-no_cr : (l : Text) → IsLine l → All (λ c. (cr == c) ≡ false) l
IsLine-no_cr = All-imp IsInner (λ c. (cr == c) ≡ false) (λ c h. h.0)

pub IsLine-no_lf : (l : Text) → IsLine l → All (λ c. (lf == c) ≡ false) l
IsLine-no_lf = All-imp IsInner (λ c. (lf == c) ≡ false) (λ c h. h.1)

-- The first step turns Windows endings into Unix endings, and leaves the others.
pub windows-unix :
    (ls : List Text)
    → All IsLine ls
    → replace_all (cr ∷ lf ∷ []) (lf ∷ []) (ended (cr ∷ lf ∷ []) ls) ≡ ended (lf ∷ []) ls
unfolding ended replace_from strip_prefix
windows-unix [] h = refl
windows-unix (l ∷ ls) (hl, hs) =
    replace_all-append cr (lf ∷ []) (lf ∷ []) l (cr ∷ lf ∷ ended (cr ∷ lf ∷ []) ls)
      (IsLine-no_cr l hl)
    ∙ ap (λ t. l ++ lf ∷ t) (windows-unix ls hs)

ended-no_cr : (ls : List Text) → All IsLine ls → All (λ c. (cr == c) ≡ false) (ended (lf ∷ []) ls)
unfolding ended
ended-no_cr [] h = tt
ended-no_cr (l ∷ ls) (hl, hs) =
    All-append (λ c. (cr == c) ≡ false) l (lf ∷ ended (lf ∷ []) ls) (IsLine-no_cr l hl)
      (refl, ended-no_cr ls hs)

pub unix-kept :
    (old new : Text) (ls : List Text)
    → All IsLine ls
    → replace_all (cr ∷ old) new (ended (lf ∷ []) ls) ≡ ended (lf ∷ []) ls
unfolding replace_from
unix-kept old new ls h =
    let t = ended (lf ∷ []) ls in
    ap (replace_all (cr ∷ old) new) (sym (append-nil t))
    ∙ replace_all-append cr old new t [] (ended-no_cr ls h)
    ∙ append-nil t

old_mac-step :
    (ls : List Text)
    → All IsLine ls
    → replace_all (cr ∷ lf ∷ []) (lf ∷ []) (cr ∷ ended (cr ∷ []) ls)
      ≡ cr ∷ replace_all (cr ∷ lf ∷ []) (lf ∷ []) (ended (cr ∷ []) ls)
unfolding ended replace_from strip_prefix
old_mac-step [] h = refl
old_mac-step ([] ∷ ls) h = refl
old_mac-step ((c ∷ l) ∷ ls) (((hr, hn), hl), hs) = rw hn refl

pub old_mac-kept :
    (ls : List Text)
    → All IsLine ls
    → replace_all (cr ∷ lf ∷ []) (lf ∷ []) (ended (cr ∷ []) ls) ≡ ended (cr ∷ []) ls
unfolding ended
old_mac-kept [] h = unfold replace_from in refl
old_mac-kept (l ∷ ls) (hl, hs) =
    replace_all-append cr (lf ∷ []) (lf ∷ []) l (cr ∷ ended (cr ∷ []) ls) (IsLine-no_cr l hl)
    ∙ ap (λ t. l ++ t) (old_mac-step ls hs)
    ∙ ap (λ t. l ++ cr ∷ t) (old_mac-kept ls hs)

-- The second step turns them into Unix endings.
pub old_mac-unix :
    (ls : List Text)
    → All IsLine ls
    → replace_all (cr ∷ []) (lf ∷ []) (ended (cr ∷ []) ls) ≡ ended (lf ∷ []) ls
unfolding ended replace_from strip_prefix
old_mac-unix [] h = refl
old_mac-unix (l ∷ ls) (hl, hs) =
    replace_all-append cr [] (lf ∷ []) l (cr ∷ ended (cr ∷ []) ls) (IsLine-no_cr l hl)
    ∙ ap (λ t. l ++ lf ∷ t) (old_mac-unix ls hs)
