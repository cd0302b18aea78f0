-- ===== src/Base/FilePath.antt =====
-- filepath.Clean, filepath.Join and filepath.Dir on Unix.
use jvm_vendors.Base.{
  Bool, true, false, ◌||◌, List, [], ◌∷◌, ◌++◌, ◌≡◌, refl, is_nil, ◌==◌, if◌then◌else◌,
}
use mathlib.Core.List.{reverse}
use jvm_vendors.Base.Text.{Text, codes, text_eq, join}
use jvm_vendors.Base.Text.Split.{split}

abbrev dot_dot : Text
dot_dot = codes ".."

-- `..` removes the element before it; it stays where there is none, unless the path is rooted.
up : Bool → List Text → List Text
up true [] = []
up false [] = dot_dot ∷ []
up rooted (e ∷ es) = if text_eq e dot_dot then dot_dot ∷ e ∷ es else es

-- The elements of a cleaned path, the last one first.
elements : Bool → List Text → List Text → List Text
elements rooted done [] = done
elements rooted done (e ∷ es) =
    elements rooted
      (if is_nil e || text_eq e (codes ".")
        then done
        else if text_eq e dot_dot
        then up rooted done
        else e ∷ done)
      es

is_rooted : Text → Bool
is_rooted [] = false
is_rooted (c ∷ s) = c == b'/'

unfoldable pub clean : Text → Text
unfolding up elements is_rooted
clean s =
    let parts = join (reverse (elements (is_rooted s) [] (split b'/' s))) (codes "/") in
    if is_rooted s then codes "/" ++ parts else if is_nil parts then codes "." else parts

-- `filepath.Join`: empty elements in front are left out.
unfoldable pub join_path : List Text → Text
join_path [] = []
join_path (e ∷ es) = if is_nil e then join_path es else clean (join (e ∷ es) (codes "/"))

up_to_slash : Text → Text
up_to_slash [] = []
up_to_slash (c ∷ s) =
    let rest = up_to_slash s in if is_nil rest then (if c == b'/' then c ∷ [] else []) else c ∷ rest

-- `filepath.Dir`
unfoldable pub dir_name : Text → Text
unfolding up_to_slash
dir_name s = clean (up_to_slash s)

joined :
    join_path (codes "/layers/jre/" ∷ codes "lib" ∷ codes "../conf" ∷ []) ≡ codes "/layers/jre/conf"
unfolding join_path clean text_eq split join
joined = refl

parent : dir_name (codes "/ext/provider.jar") ≡ codes "/ext"
unfolding dir_name clean text_eq split join
parent = refl
