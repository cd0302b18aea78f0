-- ===== src/Helper/Providers/Compact.antt =====
-- The loop that removes empty places keeps the other providers in their order.
use jvm_vendors.Base.{
  ℕ, zero, suc, ◌+◌, ◌≤◌, ◌≡◌, refl, arith, List, [], ◌∷◌, ◌++◌, length, length-append, get_elem?,
  drop, take-append, is_nil, replicate, if◌then◌else◌, some, none,
}
use mathlib.Core.List.{append-nil, append_assoc}
use jvm_vendors.Base.Text.{Text}
use jvm_vendors.Helper.Providers.{compact_loop, compact}

-- The providers that are not empty.
unfoldable pub nonempty : List Text → List Text
nonempty [] = []
nonempty (p ∷ ps) = let rest = nonempty ps in if is_nil p then rest else p ∷ rest

pub get_elem?-length {ℓ} :
    {A : Type ℓ} (xs : List A) (y : A) (ys : List A) → get_elem? (xs ++ y ∷ ys) (length xs) ≡ some y
get_elem?-length [] y ys = refl
get_elem?-length (x ∷ xs) y ys = get_elem?-length xs y ys

pub get_elem?-end {ℓ} : {A : Type ℓ} (xs : List A) → get_elem? xs (length xs) ≡ none
get_elem?-end [] = refl
get_elem?-end (x ∷ xs) = get_elem?-end xs

drop_past {ℓ} :
    {A : Type ℓ} (xs : List A) (y : A) (ys : List A) → drop (suc (length xs)) (xs ++ y ∷ ys) ≡ ys
drop_past [] y ys = refl
drop_past (x ∷ xs) y ys = drop_past xs y ys

drop-length_one {ℓ} :
    {A : Type ℓ} (xs : List A) (y : A) (ys : List A) → drop (length xs + 1) (xs ++ y ∷ ys) ≡ ys
drop-length_one xs y ys =
    let e : length xs + 1 ≡ suc (length xs) = omega arith in rw e (drop_past xs y ys)

compact_loop-nonempty :
    (rounds : ℕ) (done rest : List Text)
    → length rest ≤ rounds
    → compact_loop rounds (length done) (done ++ rest) ≡ done ++ nonempty rest
unfolding compact_loop nonempty
compact_loop-nonempty zero done [] h = refl
compact_loop-nonempty zero done (p ∷ rest) h = absurd (omega arith)
compact_loop-nonempty (suc k) done [] h = ground (arith, append-nil done, get_elem?-end done)
compact_loop-nonempty (suc k) done (p ∷ rest) h = ground (
  arith,
  get_elem?-length done p rest,
  take-append done (p ∷ rest),
  drop-length_one done p rest,
  compact_loop-nonempty k done rest (omega arith),
  compact_loop-nonempty k (done ++ p ∷ []) rest (omega arith),
  append_assoc done (p ∷ []) rest,
  append_assoc done (p ∷ []) (nonempty rest),
  length-append done (p ∷ []),
)

-- Compacting removes exactly the empty places.
pub compact-nonempty : (ps : List Text) → compact ps ≡ nonempty ps
unfolding compact
compact-nonempty ps = compact_loop-nonempty (length ps) [] ps (omega arith)

pub nonempty-append : (ps qs : List Text) → nonempty (ps ++ qs) ≡ nonempty ps ++ nonempty qs
unfolding nonempty
nonempty-append [] qs = refl
nonempty-append (p ∷ ps) qs = ground (arith, nonempty-append ps qs)

pub nonempty-replicate : (n : ℕ) → nonempty (replicate n []) ≡ []
unfolding nonempty
nonempty-replicate zero = refl
nonempty-replicate (suc n) = nonempty-replicate n
