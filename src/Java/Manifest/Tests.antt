-- ===== src/Java/Manifest/Tests.antt =====
-- A manifest with one folded line.
use jvm_vendors.Base.{◌≡◌, refl, List, [], ◌∷◌, All}
use jvm_vendors.Base.Text.{codes}
use jvm_vendors.Java.Manifest.{normalize}
use jvm_vendors.Java.Manifest.Folding.{
  Logical, windows, written, unfolded, IsLogical, BeginsWithoutSpace,
}
use jvm_vendors.Java.Manifest.Unfolding.{normalize-written}

abbrev lines : List Logical
lines = (codes "A: b", codes "c" ∷ []) ∷ []

lines-IsLogical : All IsLogical lines
unfolding IsLogical BeginsWithoutSpace
lines-IsLogical = (
  (
    ((refl, refl), ((refl, refl), ((refl, refl), ((refl, refl), tt)))),
    refl,
    (((refl, refl), tt), tt),
  ),
  tt,
)

normalize-written_example : normalize (written windows lines) ≡ unfolded lines
normalize-written_example = normalize-written windows lines lines-IsLogical
