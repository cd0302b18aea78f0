-- ===== src/Java/Manifest/Unfolding.antt =====
-- The steps of the normalization together.
use jvm_vendors.Base.{◌≡◌, refl, sym, ap, ◌∙◌, List, [], ◌∷◌, ◌++◌, All}
use mathlib.Core.List.{append_assoc}
use jvm_vendors.Base.Text.{Text, strip_prefix}
use jvm_vendors.Base.Text.Replace.{replace_from, replace_all, replace_all-append}
use jvm_vendors.Java.Manifest.{lf, cr, normalize}
use jvm_vendors.Java.Manifest.Folding.{
  LineEnding, unix, windows, old_mac, ended, Logical, continued, folded, written, joined, unfolded,
  IsLine, IsLogical, BeginsWithoutSpace, IsLine-no_lf, windows-unix, unix-kept, old_mac-kept,
  old_mac-unix,
}

continued-IsLine :
    (parts rest : List Text)
    → All IsLine parts
    → All IsLine rest
    → All IsLine (continued parts rest)
unfolding continued
continued-IsLine [] rest h k = k
continued-IsLine (part ∷ parts) rest (hp, hs) k =
    (((refl, refl), hp), continued-IsLine parts rest hs k)

folded-IsLine : (ls : List Logical) → All IsLogical ls → All IsLine (folded ls)
unfolding folded IsLogical BeginsWithoutSpace
folded-IsLine [] h = tt
folded-IsLine ((first, parts) ∷ ls) ((hf, hb, hp), hs) =
    (hf, continued-IsLine parts (folded ls) hp (folded-IsLine ls hs))

abbrev join_lines : Text → Text
join_lines = replace_all (lf ∷ b' ' ∷ []) []

-- A line ending with no continued line behind it is kept.
line_end :
    (ls : List Logical)
    → All IsLogical ls
    → join_lines (lf ∷ ended (lf ∷ []) (folded ls)) ≡ lf ∷ join_lines (ended (lf ∷ []) (folded ls))
unfolding ended folded replace_from strip_prefix IsLogical BeginsWithoutSpace
line_end [] h = refl
line_end (([], parts) ∷ ls) h = refl
line_end (((c ∷ first), parts) ∷ ls) ((hf, hb, hp), hs) = rw hb refl

-- The parts that continue a line are joined to it.
continued_lem :
    (parts : List Text) (ls : List Logical)
    → All IsLine parts
    → All IsLogical ls
    → join_lines (lf ∷ ended (lf ∷ []) (continued parts (folded ls)))
      ≡ joined parts ++ lf ∷ join_lines (ended (lf ∷ []) (folded ls))
unfolding ended continued joined replace_from strip_prefix
continued_lem [] ls h hs = line_end ls hs
continued_lem (part ∷ parts) ls (hp, h) hs =
    replace_all-append lf (b' ' ∷ []) [] part (lf ∷ ended (lf ∷ []) (continued parts (folded ls)))
      (IsLine-no_lf part hp)
    ∙ ap (λ t. part ++ t) (continued_lem parts ls h hs)
    ∙ sym (append_assoc part (joined parts) (lf ∷ join_lines (ended (lf ∷ []) (folded ls))))

join_lines-folded :
    (ls : List Logical) → All IsLogical ls → join_lines (ended (lf ∷ []) (folded ls)) ≡ unfolded ls
unfolding ended folded unfolded IsLogical BeginsWithoutSpace
join_lines-folded [] h = unfold replace_from in refl
join_lines-folded ((first, parts) ∷ ls) ((hf, hb, hp), hs) =
    replace_all-append lf (b' ' ∷ []) [] first (lf ∷ ended (lf ∷ []) (continued parts (folded ls)))
      (IsLine-no_lf first hf)
    ∙ ap (λ t. first ++ t) (continued_lem parts ls hp hs)
    ∙ ap (λ t. first ++ (joined parts ++ lf ∷ t)) (join_lines-folded ls hs)

-- A manifest whose lines end in LF, CR LF or CR, and whose logical lines are folded into lines that
-- begin with a space, is normalized to its logical lines, unfolded and ended by LF; no part of a
-- line has a line ending in it and no logical line begins with a space.
pub normalize-written :
    (e : LineEnding) (ls : List Logical) → All IsLogical ls → normalize (written e ls) ≡ unfolded ls
unfolding normalize written
normalize-written unix ls h =
    let lines = folded-IsLine ls h in
    ap (λ t. join_lines (replace_all (cr ∷ []) (lf ∷ []) t))
      (unix-kept (lf ∷ []) (lf ∷ []) (folded ls) lines)
    ∙ ap join_lines (unix-kept [] (lf ∷ []) (folded ls) lines)
    ∙ join_lines-folded ls h
normalize-written windows ls h =
    let lines = folded-IsLine ls h in
    ap (λ t. join_lines (replace_all (cr ∷ []) (lf ∷ []) t)) (windows-unix (folded ls) lines)
    ∙ ap join_lines (unix-kept [] (lf ∷ []) (folded ls) lines)
    ∙ join_lines-folded ls h
normalize-written old_mac ls h =
    let lines = folded-IsLine ls h in
    ap (λ t. join_lines (replace_all (cr ∷ []) (lf ∷ []) t)) (old_mac-kept (folded ls) lines)
    ∙ ap join_lines (old_mac-unix (folded ls) lines)
    ∙ join_lines-folded ls h
