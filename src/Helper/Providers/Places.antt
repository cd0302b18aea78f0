-- ===== src/Helper/Providers/Places.antt =====
-- Where a provider with an index is put, and that none is lost on the way.
use jvm_vendors.Base.{
  ℕ, zero, suc, ◌+◌, ◌-◌, ◌≡◌, ◌≢◌, refl, ◌∙◌, ap, arith, List, [], ◌∷◌, ◌++◌, length, get_elem?,
  replicate, is_nil, if◌then◌else◌, Option, some, none, leb, ◌==◌, subst, Bool-cases, inl, inr,
}
use mathlib.Core.List.{Perm, perm_append_singleton, append-nil, append_assoc}
use mathlib.Core.List.Perm
use jvm_vendors.Base.Text.{Text}
use jvm_vendors.Base.Text.Decimal.{value}
use jvm_vendors.Base.Result.{ok, >>=-eq-ok, ok-injective}
use jvm_vendors.Calc.Size.{max_i64, split_digits}
use jvm_vendors.Helper.Providers.{
  pad, shift, is_free, put_in, place, place_from_one, add_match, match_provider, collect, named,
  indexed, or_else, word_run, compact,
}
use jvm_vendors.Helper.Providers.Compact.{nonempty, compact-nonempty, nonempty-append}

-- A provider that is put at place `i`: it takes an empty place, and moves others up.
unfoldable pub put : ℕ → Text → List Text → List Text
put zero name [] = name ∷ []
put zero name (p ∷ ps) = if is_nil p then name ∷ ps else name ∷ p ∷ ps
put (suc i) name [] = [] ∷ put i name []
put (suc i) name (p ∷ ps) = p ∷ put i name ps

replicate-eq : (n m : ℕ) → n ≡ m → replicate {A = Text} n [] ≡ replicate m []
replicate-eq n m h = ap (λ k. replicate k []) h

pad-nil : (i : ℕ) → pad (suc i) [] ≡ [] ∷ pad i []
unfolding pad
pad-nil i = replicate-eq (suc i + 1 - 0) (suc (i + 1 - 0)) (omega arith)

pad-cons : (i : ℕ) (p : Text) (ps : List Text) → pad (suc i) (p ∷ ps) ≡ p ∷ pad i ps
unfolding pad
pad-cons i p ps =
    ap (λ r. p ∷ (ps ++ r))
      (replicate-eq (suc i + 1 - suc (length ps)) (i + 1 - length ps) (omega arith))

pad-zero : (p : Text) (ps : List Text) → pad 0 (p ∷ ps) ≡ p ∷ ps
unfolding pad
pad-zero p ps =
    ap (λ r. p ∷ (ps ++ r)) (replicate-eq (0 + 1 - suc (length ps)) 0 (omega arith))
    ∙ ap (λ r. p ∷ r) (append-nil ps)

shift-cons : (i : ℕ) (p : Text) (ps : List Text) → shift (suc i) (p ∷ ps) ≡ p ∷ shift i ps
unfolding shift
shift-cons i p ps = let e : suc i + 1 ≡ suc (i + 1) = omega arith in rw e

put_in-cons :
    (i : ℕ) (name p : Text) (ps : List Text) → put_in (suc i) name (p ∷ ps) ≡ p ∷ put_in i name ps
unfolding put_in
put_in-cons i name p ps = elim (Bool-cases (is_free (get_elem? ps i))) [
  | inl e ↦ rw e
  | inr e ↦ rw (e, shift-cons)
]

-- The loops and copies of the source put the provider at its place as `put` does, which goes through
-- the list.
pub place-put : (i : ℕ) (name : Text) (ps : List Text) → place i name ps ≡ put i name ps
unfolding place put
place-put zero name [] = unfold pad put_in in refl
place-put zero name (p ∷ ps) = rw (pad-zero p ps) (unfold put_in shift in ground arith)
place-put (suc i) name [] =
    rw (pad-nil i) (put_in-cons i name [] (pad i []) ∙ ap (λ r. [] ∷ r) (place-put i name []))
place-put (suc i) name (p ∷ ps) =
    rw (pad-cons i p ps) (put_in-cons i name p (pad i ps) ∙ ap (λ r. p ∷ r) (place-put i name ps))

get_elem?-put : (i : ℕ) (name : Text) (ps : List Text) → get_elem? (put i name ps) i ≡ some name
unfolding put
get_elem?-put zero name [] = refl
get_elem?-put zero name (p ∷ ps) = ground arith
get_elem?-put (suc i) name [] = get_elem?-put i name []
get_elem?-put (suc i) name (p ∷ ps) = get_elem?-put i name ps

-- Putting a provider at its place loses none.
put-perm :
    (i : ℕ) (name : Text) (ps : List Text)
    → name ≢ []
    → Perm (nonempty (put i name ps)) (name ∷ nonempty ps)
unfolding put nonempty
put-perm zero [] ps h = absurd (h refl)
put-perm zero (c ∷ name) [] h = Perm.refl _
put-perm zero (c ∷ name) ([] ∷ ps) h = Perm.refl _
put-perm zero (c ∷ name) ((d ∷ p) ∷ ps) h = Perm.refl _
put-perm (suc i) name [] h = put-perm i name [] h
put-perm (suc i) name ([] ∷ ps) h = put-perm i name ps h
put-perm (suc i) name ((d ∷ p) ∷ ps) h =
    Perm.trans (Perm.cons (d ∷ p) (put-perm i name ps h)) (Perm.swap name (d ∷ p) (nonempty ps))

unfoldable pub name_of : Option (Text × Text) → List Text
name_of none = []
name_of (some (index, name)) = name ∷ []

-- The names that the entries hold, in their order.
unfoldable pub names : List Text → List Text
unfolding name_of
names [] = []
names (entry ∷ entries) = name_of (match_provider entry) ++ names entries

abbrev IsNamed : Option (Text × Text) → Type 0
IsNamed none = Unit
IsNamed (some (index, name)) = name ≢ []

named-IsNamed : (index w : Text) → IsNamed (named index w)
unfolding named
named-IsNamed index [] = tt
named-IsNamed index (c ∷ w) = ground arith

or_else-IsNamed : (a b : Option (Text × Text)) → IsNamed a → IsNamed b → IsNamed (or_else a b)
unfolding or_else
or_else-IsNamed none b ha hb = hb
or_else-IsNamed (some m) b ha hb = ha

indexed-IsNamed : (p : Text × Text) → IsNamed (indexed p)
unfolding indexed
indexed-IsNamed ([], rest) = tt
indexed-IsNamed (d ∷ ds, []) = tt
indexed-IsNamed (d ∷ ds, c ∷ rest) = elim (Bool-cases (c == b'|')) [
  | inl e ↦ rw e (named-IsNamed (d ∷ ds) (word_run rest))
  | inr e ↦ rw e tt
]

match_provider-IsNamed : (s : Text) → IsNamed (match_provider s)
unfolding match_provider
match_provider-IsNamed [] = tt
match_provider-IsNamed (c ∷ s) =
    or_else-IsNamed _ (match_provider s)
      (or_else-IsNamed _ _ (indexed-IsNamed (split_digits (c ∷ s)))
        (named-IsNamed [] (word_run (c ∷ s))))
      (match_provider-IsNamed s)

concat-perm :
    (ps : List Text) (name : Text)
    → name ≢ []
    → Perm (nonempty (ps ++ name ∷ [])) (nonempty ps ++ name ∷ [])
unfolding nonempty
concat-perm ps [] h = absurd (h refl)
concat-perm ps (c ∷ name) h = rw nonempty-append (Perm.refl _)

place-perm :
    (i : ℕ) (name : Text) (ps : List Text)
    → name ≢ []
    → Perm (nonempty (place i name ps)) (nonempty ps ++ name ∷ [])
place-perm i name ps h =
    rw (place-put i name ps)
      (Perm.trans (put-perm i name ps h) (Perm.symm (perm_append_singleton name (nonempty ps))))

place_from_one-perm :
    (i : ℕ) (name : Text) (ps : List Text) {qs : List Text}
    → name ≢ []
    → place_from_one i name ps ≡ ok qs
    → Perm (nonempty qs) (nonempty ps ++ name ∷ [])
unfolding place_from_one
place_from_one-perm zero name ps h e = cc
place_from_one-perm (suc i) name ps h e =
    subst (λ q. Perm (nonempty q) (nonempty ps ++ name ∷ [])) (ok-injective e)
      (place-perm i name ps h)

add_match-perm :
    (ps : List Text) (m : Option (Text × Text)) {qs : List Text}
    → IsNamed m
    → add_match ps m ≡ ok qs
    → Perm (nonempty qs) (nonempty ps ++ name_of m)
unfolding add_match name_of
add_match-perm ps none h e =
    subst (λ q. Perm (nonempty q) (nonempty ps ++ [])) (ok-injective e)
      (rw append-nil (Perm.refl _))
add_match-perm ps (some ([], name)) h e =
    subst (λ q. Perm (nonempty q) (nonempty ps ++ name ∷ [])) (ok-injective e)
      (concat-perm ps name h)
add_match-perm ps (some (d ∷ ds, name)) h e = elim (Bool-cases (leb (value (d ∷ ds)) max_i64)) [
  | inl fits ↦ place_from_one-perm (value (d ∷ ds)) name ps h (rw fits at e)
  | inr large ↦ cc (rw large at e)
]

collect-perm :
    (ps entries : List Text) {qs : List Text}
    → collect ps entries ≡ ok qs
    → Perm (nonempty qs) (nonempty ps ++ names entries)
unfolding collect names
collect-perm ps [] e =
    subst (λ q. Perm (nonempty q) (nonempty ps ++ [])) (ok-injective e)
      (rw append-nil (Perm.refl _))
collect-perm ps (entry ∷ entries) e =
    let (next, first, rest) =
      >>=-eq-ok (add_match ps (match_provider entry)) (λ p. collect p entries) e in
    let one = add_match-perm ps (match_provider entry) (match_provider-IsNamed entry) first in
    rw (← append_assoc)
      (Perm.trans (collect-perm next entries rest) (Perm.append_right (names entries) one))

-- If no entry is refused, the configured list holds exactly the providers that the entries name, each as often as it is
-- named, whatever their indexes.
pub compact-collect-perm :
    (entries : List Text) {ps : List Text}
    → collect [] entries ≡ ok ps
    → Perm (compact ps) (names entries)
compact-collect-perm entries {ps} e =
    rw (compact-nonempty ps) (unfold nonempty in (collect-perm [] entries e))
