-- ===== src/Java/Plan/Helpers.antt =====
-- The helpers of a layer: the standard ones, and custom ones up to the first that is there already.
use jvm_vendors.Base.{
  ◌≡◌, refl, ap, ◌∙◌, sym, true, false, ◌||◌, List, [], ◌∷◌, ◌++◌, arith, Bool-cases, inl, inr,
}
use mathlib.Core.List.{append-nil, append_assoc}
use jvm_vendors.Base.Text.{Text, text_eq}
use jvm_vendors.Java.Vendors.{has}
use jvm_vendors.Java.Plan.{add_custom}

-- No name stands twice.
unfoldable pub Distinct : List Text → Type 0
Distinct [] = Unit
Distinct (x ∷ xs) = (has xs x ≡ false) × Distinct xs

-- Behind the names that are taken stands nothing, or one of them.
abbrev pub IsStopped : List Text → List Text → Type 0
IsStopped names [] = Unit
IsStopped names (x ∷ rest) = has names x ≡ true

has-append : (xs ys : List Text) (x : Text) → has (xs ++ ys) x ≡ (has xs x || has ys x)
unfolding has
has-append [] ys x = refl
has-append (y ∷ xs) ys x = ground (arith, has-append xs ys x)

text_eq_sym : (s t : Text) → text_eq s t ≡ false → text_eq t s ≡ false
unfolding text_eq
text_eq_sym [] [] h = h
text_eq_sym [] (d ∷ t) h = refl
text_eq_sym (c ∷ s) [] h = refl
text_eq_sym (c ∷ s) (d ∷ t) h = ground (arith, text_eq_sym s t)

has-end :
    (xs : List Text) (x y : Text)
    → has xs y ≡ false
    → text_eq x y ≡ false
    → has (xs ++ x ∷ []) y ≡ false
has-end xs x y h k = rw (has-append xs (x ∷ []) y, h) (unfold has in rw k)

Distinct-end :
    (xs : List Text) (x : Text) → Distinct xs → has xs x ≡ false → Distinct (xs ++ x ∷ [])
unfolding Distinct has
Distinct-end [] x d h = (refl, tt)
Distinct-end (y ∷ xs) x (hy, d) h = elim (Bool-cases (text_eq y x)) [
  | inl e ↦ cc (rw e at h)
  | inr e ↦ (has-end xs x y hy (text_eq_sym y x e), Distinct-end xs x d (rw e at h))
]

add_custom-Distinct :
    (names customs : List Text) → Distinct names → Distinct (add_custom names customs)
unfolding add_custom
add_custom-Distinct names [] d = d
add_custom-Distinct names (custom ∷ customs) d = elim (Bool-cases (has names custom)) [
  | inl e ↦ rw e d
  | inr e ↦
      rw e (add_custom-Distinct (names ++ custom ∷ []) customs (Distinct-end names custom d e))
]

-- What the loop adds: the custom names `more`, and behind them the names `rest` that it drops.
pub record IsAdded (names customs : List Text) : Type 0 where
  pub more : List Text
  pub rest : List Text
  pub customs_are : customs ≡ more ++ rest
  pub result_is : add_custom names customs ≡ names ++ more
  pub stopped : IsStopped (names ++ more) rest

add_custom-IsAdded : (names customs : List Text) → IsAdded names customs
unfolding add_custom
add_custom-IsAdded names [] = record {
  more = [];
  rest = [];
  customs_are = refl;
  result_is = sym (append-nil names);
  stopped = tt;
}
add_custom-IsAdded names (custom ∷ customs) = elim (Bool-cases (has names custom)) [
  | inl e ↦ record {
    more = [];
    rest = custom ∷ customs;
    customs_are = refl;
    result_is = rw e (sym (append-nil names));
    stopped = rw append-nil e;
  }
  | inr e ↦
      let r = add_custom-IsAdded (names ++ custom ∷ []) customs in
      record {
        more = custom ∷ r.more;
        rest = r.rest;
        customs_are = ap (λ cs. custom ∷ cs) r.customs_are;
        result_is = rw e (r.result_is ∙ append_assoc names (custom ∷ []) r.more);
        stopped = rw (append_assoc names (custom ∷ []) r.more) at r.stopped;
      }
]

-- The helpers are the ones before, in their order, and behind them the custom ones up to the first
-- that is among them; no name is there twice if none was before. That custom one and all behind it
-- are dropped.
pub add_custom-IsAdded-Distinct :
    (names customs : List Text)
    → Distinct names
    → IsAdded names customs × Distinct (add_custom names customs)
add_custom-IsAdded-Distinct names customs d =
    (add_custom-IsAdded names customs, add_custom-Distinct names customs d)
