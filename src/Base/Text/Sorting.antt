-- ===== src/Base/Text/Sorting.antt =====
-- `sort.Strings`: texts in the order of their code points, which is that of their bytes in UTF-8.
use mathlib.Core.Path.{◌≡◌, refl}
use mathlib.Core.Bool.{Bool, true, false, ◌&&◌, ◌||◌}
use mathlib.Core.List.{List, [], ◌∷◌}
use native.Mathlib.Omega.{arith}
use jvm_vendors.Base.Tests.{ltb, ◌==◌}
use jvm_vendors.Base.Sorting.{Order, sort as sort_by}
use jvm_vendors.Base.Text.{Text}

unfoldable pub text_leq : Text → Text → Bool
text_leq [] t = true
text_leq (c ∷ s) [] = false
text_leq (c ∷ s) (d ∷ t) = ltb c d || c == d && text_leq s t

pub text_leq_total : (s t : Text) → text_leq s t ≡ false → text_leq t s ≡ true
unfolding text_leq
text_leq_total [] t h = cc
text_leq_total (c ∷ s) [] h = refl
text_leq_total (c ∷ s) (d ∷ t) h = ground (arith, text_leq_total s t)

pub text_leq_antisymm : (s t : Text) → text_leq s t ≡ true → text_leq t s ≡ true → s ≡ t
unfolding text_leq
text_leq_antisymm [] [] h k = refl
text_leq_antisymm [] (d ∷ t) h k = cc
text_leq_antisymm (c ∷ s) [] h k = cc
text_leq_antisymm (c ∷ s) (d ∷ t) h k = ground (arith, text_leq_antisymm s t)

pub text_leq_trans :
    (s t u : Text) → text_leq s t ≡ true → text_leq t u ≡ true → text_leq s u ≡ true
unfolding text_leq
text_leq_trans [] t u h k = refl
text_leq_trans (c ∷ s) [] u h k = cc
text_leq_trans (c ∷ s) (d ∷ t) [] h k = cc
text_leq_trans (c ∷ s) (d ∷ t) (e ∷ u) h k = ground (arith, text_leq_trans s t u)

abbrev pub text_order : Order Text
text_order = record {
  leq = text_leq;
  leq_total = text_leq_total;
  leq_antisymm = text_leq_antisymm;
  leq_trans = text_leq_trans;
}

abbrev pub sort : List Text → List Text
sort = sort_by text_order
