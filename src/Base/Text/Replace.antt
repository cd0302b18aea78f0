-- ===== src/Base/Text/Replace.antt =====
-- `strings.ReplaceAll` and `bytes.ReplaceAll`, for a pattern that is not empty.
use Prim.Native.Nat.{ℕ, zero, suc, ◌-◌}
use mathlib.Core.Path.{◌≡◌, refl}
use mathlib.Core.Bool.{false}
use mathlib.Core.List.{[], ◌∷◌, ◌++◌}
use jvm_vendors.Base.Tests.{◌==◌, if◌then◌else◌}
use jvm_vendors.Base.Lists.{length, All}
use jvm_vendors.Base.Text.{Text, has_prefix, strip_prefix}

-- So many characters belong to the pattern that was found last.
unfoldable pub replace_from : Text → Text → ℕ → Text → Text
replace_from old new n [] = []
replace_from old new (suc n) (c ∷ s) = replace_from old new n s
replace_from old new zero (c ∷ s) =
    let behind = replace_from old new (length old - 1) s in
    let next = replace_from old new 0 s in
    if has_prefix (c ∷ s) old then new ++ behind else c ∷ next

abbrev pub replace_all : Text → Text → Text → Text
replace_all old new = replace_from old new 0

-- Text without the first character of the pattern is kept.
pub replace_all-append :
    (a : ℕ) (old new s t : Text)
    → All (λ c. (a == c) ≡ false) s
    → replace_all (a ∷ old) new (s ++ t) ≡ s ++ replace_all (a ∷ old) new t
unfolding replace_from strip_prefix
replace_all-append a old new [] t h = refl
replace_all-append a old new (c ∷ s) t (hc, hs) = rw (hc, replace_all-append a old new s t hs)
