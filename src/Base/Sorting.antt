-- ===== src/Base/Sorting.antt =====
-- Sorting by a total order: the functions of the package sort. An order in which two values that are
-- both at most the other are equal has one sorted list, so the algorithm makes no difference.
use mathlib.Core.Path.{◌≡◌, refl, ◌∙◌, sym, ap}
use mathlib.Core.Logic.{inl, inr}
use mathlib.Core.Bool.{Bool, true, false}
use mathlib.Core.List.{List, [], ◌∷◌, Perm, foldr}
use mathlib.Core.List.Perm
use native.Mathlib.Omega.{arith}
use jvm_vendors.Base.Lists.{All}
use jvm_vendors.Base.Tests.{if◌then◌else◌, Bool-cases}

-- A test for a total order.
pub record Order {ℓ} (A : Type ℓ) : Type ℓ where
  pub leq : A → A → Bool
  pub leq_total : (x y : A) → leq x y ≡ false → leq y x ≡ true
  pub leq_antisymm : (x y : A) → leq x y ≡ true → leq y x ≡ true → x ≡ y
  pub leq_trans : (x y z : A) → leq x y ≡ true → leq y z ≡ true → leq x z ≡ true

module _ {ℓ} {A : Type ℓ} (o : Order A) where
  open o use {leq, leq_total, leq_antisymm, leq_trans}

  unfoldable pub insert : A → List A → List A
  insert x [] = x ∷ []
  insert x (y ∷ ys) = let rest = insert x ys in if leq x y then x ∷ y ∷ ys else y ∷ rest

  unfoldable pub sort : List A → List A
  sort [] = []
  sort (x ∷ xs) = insert x (sort xs)

  pub insert_comm : (x y : A) (l : List A) → insert x (insert y l) ≡ insert y (insert x l)
  unfolding insert
  insert_comm x y [] = elim (Bool-cases (leq x y)) [
    | inl e ↦ elim (Bool-cases (leq y x)) [
      | inl f ↦ let g : x ≡ y = leq_antisymm x y e f in rw g
      | inr f ↦ rw (e, f)
    ]
    | inr e ↦ let f : leq y x ≡ true = leq_total x y e in rw (e, f)
  ]
  insert_comm x y (z ∷ l) = ground (
    arith,
    insert_comm x y l,
    leq_antisymm x y,
    leq_total x y,
    leq_total x z,
    leq_total y z,
    leq_trans x y z,
    leq_trans y x z,
    leq_trans x z y,
    leq_trans y z x,
  )

  insert-perm : (x : A) (ys : List A) → Perm (insert x ys) (x ∷ ys)
  unfolding insert
  insert-perm x [] = Perm.refl (x ∷ [])
  insert-perm x (y ∷ ys) = elim (Bool-cases (leq x y)) [
    | inl e ↦ rw e (Perm.refl (x ∷ y ∷ ys))
    | inr e ↦ rw e (Perm.trans (Perm.cons y (insert-perm x ys)) (Perm.swap x y ys))
  ]

  -- Sorting keeps the values.
  pub sort-perm : (xs : List A) → Perm (sort xs) xs
  unfolding sort
  sort-perm [] = Perm.refl []
  sort-perm (x ∷ xs) = Perm.trans (insert-perm x (sort xs)) (Perm.cons x (sort-perm xs))

  insert-All {κ} : (P : A → Type κ) (x : A) (ys : List A) → P x → All P ys → All P (insert x ys)
  unfolding insert
  insert-All P x [] hx h = (hx, h)
  insert-All P x (y ∷ ys) hx (hy, h) = elim (Bool-cases (leq x y)) [
    | inl e ↦ rw e (hx, (hy, h))
    | inr e ↦ rw e (hy, insert-All P x ys hx h)
  ]

  pub sort-All {κ} : (P : A → Type κ) (xs : List A) → All P xs → All P (sort xs)
  unfolding sort
  sort-All P [] h = h
  sort-All P (x ∷ xs) (hx, h) = insert-All P x (sort xs) hx (sort-All P xs h)

  pub sort-foldr : (xs : List A) → sort xs ≡ foldr insert [] xs
  unfolding sort
  sort-foldr [] = refl
  sort-foldr (x ∷ xs) = ap (insert x) (sort-foldr xs)

  -- The order in which the values come makes no difference.
  pub sort-Perm : IsSet A → {xs ys : List A} → Perm xs ys → sort xs ≡ sort ys
  sort-Perm aset {xs} {ys} p =
      let lists : IsSet (List A) = hlevel in
      sort-foldr xs ∙ (Perm.foldr-eq lists insert insert_comm p [] ∙ sym (sort-foldr ys))

-- The order of pairs by their first components, and by the second ones where the first are equal.
module _ {ℓ κ} {A : Type ℓ} {B : Type κ} (o : Order A) (u : Order B) where
  unfoldable pub lex_leq : A × B → A × B → Bool
  lex_leq (a, b) (c, d) = if o.leq a c then (if o.leq c a then u.leq b d else true) else false

  pub lex_total : (x y : A × B) → lex_leq x y ≡ false → lex_leq y x ≡ true
  unfolding lex_leq
  lex_total (a, b) (c, d) h = ground (arith, o.leq_total a c, u.leq_total b d)

  pub lex_antisymm : (x y : A × B) → lex_leq x y ≡ true → lex_leq y x ≡ true → x ≡ y
  unfolding lex_leq
  lex_antisymm (a, b) (c, d) h k = ground (arith, o.leq_antisymm a c, u.leq_antisymm b d)

  pub lex_trans : (x y z : A × B) → lex_leq x y ≡ true → lex_leq y z ≡ true → lex_leq x z ≡ true
  unfolding lex_leq
  lex_trans (a, b) (c, d) (e, f) h k = ground (
    arith,
    o.leq_trans a c e,
    o.leq_trans e c a,
    o.leq_trans c e a,
    o.leq_trans e a c,
    u.leq_trans b d f,
  )

  abbrev pub lex : Order (A × B)
  lex = record {
    leq = lex_leq;
    leq_total = lex_total;
    leq_antisymm = lex_antisymm;
    leq_trans = lex_trans;
  }
