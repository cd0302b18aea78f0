-- ===== src/Java/Vendors/Offer.antt =====
-- The vendors that a list of items offers, and when the buildpack takes part.
use jvm_vendors.Base.{
  ℕ, ◌≡◌, ◌↔◌, ◌⊎◌, refl, sym, true, false, some, List, [], ◌∷◌, ◌++◌, map, is_nil, if◌then◌else◌,
  Bool-cases, inl, inr, All, All-imp, All-append, arith, ◌==◌,
}
use jvm_vendors.Base.Result.{ok}
use jvm_vendors.Base.Text.{
  Text, codes, IsOneOf, is_space, trim_space-padded, join, text_eq, text_eq_refl, text_eq_sound,
}
use jvm_vendors.Base.Text.Split.{Lacks, split-join}
use jvm_vendors.Java.Vendors.{
  nonblank, load_jvm_vendors, has, detect, resolved, chosen_from, chosen, pass, offered_plans,
}

-- An item of the list of vendors: a name, which may be missing, with spaces around it.
pub record Item : Type 0 where
  pub front : Text
  pub name : Text
  pub back : Text

abbrev pub item_text : Item → Text
item_text i = i.front ++ (i.name ++ i.back)

abbrev pub IsBlank : Text → Type 0
IsBlank = All (λ c. is_space c ≡ true)

-- A name has no space and no comma.
pub record IsItem (i : Item) : Type 0 where
  pub front_blank : IsBlank i.front
  pub name_whole : All (λ c. is_space c ≡ false) i.name
  pub no_comma : Lacks b',' i.name
  pub back_blank : IsBlank i.back

-- The names that are there, in order.
abbrev pub offered : List Item → List Text
offered [] = []
offered (i ∷ is) = let rest = offered is in if is_nil i.name then rest else i.name ∷ rest

space-comma : (c : ℕ) → is_space c ≡ true → (c == b',') ≡ false
unfolding is_space
space-comma c h = ground arith

item_text-Lacks : (i : Item) → IsItem i → Lacks b',' (item_text i)
item_text-Lacks i h =
    let lacks = λ (c : ℕ). (c == b',') ≡ false in
    let clean = All-imp (λ c. is_space c ≡ true) lacks space-comma in
    All-append lacks i.front (i.name ++ i.back) (clean i.front h.front_blank)
      (All-append lacks i.name i.back h.no_comma (clean i.back h.back_blank))

All-Lacks : (is : List Item) → All IsItem is → All (Lacks b',') (map item_text is)
All-Lacks [] h = tt
All-Lacks (i ∷ is) (hi, h) = (item_text-Lacks i hi, All-Lacks is h)

nonblank-offered : (is : List Item) → All IsItem is → nonblank (map item_text is) ≡ offered is
unfolding nonblank
nonblank-offered [] h = refl
nonblank-offered (i ∷ is) (hi, h) =
    rw
      (
        trim_space-padded i.front i.name i.back hi.front_blank hi.name_whole hi.back_blank,
        nonblank-offered is h,
      )
      refl

has_iff : (vs : List Text) (v : Text) → (has vs v ≡ true) ↔ IsOneOf v vs
unfolding has IsOneOf
has_iff [] v = ((λ h. cc (h)), λ h. absurd h)
has_iff (w ∷ vs) v = elim (Bool-cases (text_eq w v)) [
  | inl e ↦ ((λ h. inl (sym (text_eq_sound w v e))), λ h. rw e refl)
  | inr e ↦ (
    (λ h. inr ((has_iff vs v).0 (rw e at h))),
    λ h. elim h [ inl same ↦ cc (same, text_eq_refl w) | inr rest ↦ rw e ((has_iff vs v).1 rest) ],
  )
]

-- What a vendor that is asked for decides.
chosen-pass :
    (v : Text) (vs : List Text) → (chosen v vs ≡ pass offered_plans) ↔ ((v ≡ []) ⊎ IsOneOf v vs)
unfolding chosen
chosen-pass [] vs = ((λ h. inl refl), λ h. refl)
chosen-pass (c ∷ s) vs = elim (Bool-cases (has vs (c ∷ s))) [
  | inl e ↦ ((λ h. inr ((has_iff vs (c ∷ s)).0 e)), λ h. rw e refl)
  | inr e ↦ (
    (λ h. cc (rw e at h)),
    λ h. elim h [ inl same ↦ cc | inr one ↦ cc (e, (has_iff vs (c ∷ s)).1 one) ],
  )
]

detect-chosen :
    (raw vendor : Text) (vs : List Text)
    → load_jvm_vendors raw ≡ some vs
    → (detect (resolved raw vendor) ≡ ok (pass offered_plans)) ↔ ((vendor ≡ []) ⊎ IsOneOf vendor vs)
unfolding detect chosen_from
detect-chosen raw vendor vs h =
    let (there, back) = chosen-pass vendor vs in
    ((λ e. there (cc (rw h at e))), λ e. rw (h, back e) refl)

-- A list of vendors is written as items with commas between them, each a name without a space and a
-- comma, or none, with spaces around it. If the text is not empty, the vendors are the names that are
-- there, in order, and the buildpack takes part, with the plans that it offers, exactly if no vendor is
-- asked for or the one that is asked for is one of these names.
pub detect_iff :
    (i : Item) (is : List Item) (vendor : Text)
    → All IsItem (i ∷ is)
    → is_nil (join (map item_text (i ∷ is)) (codes ",")) ≡ false
    → (load_jvm_vendors (join (map item_text (i ∷ is)) (codes ",")) ≡ some (offered (i ∷ is)))
      × ((detect (resolved (join (map item_text (i ∷ is)) (codes ",")) vendor)
            ≡ ok (pass offered_plans))
          ↔ ((vendor ≡ []) ⊎ IsOneOf vendor (offered (i ∷ is))))
unfolding load_jvm_vendors
detect_iff i is vendor h there =
    let parts = split-join b',' (item_text i) (map item_text is) (All-Lacks (i ∷ is) h) in
    let names : load_jvm_vendors (join (map item_text (i ∷ is)) (codes ","))
        ≡ some (offered (i ∷ is)) =
      rw (there, parts, nonblank-offered (i ∷ is) h) refl in
    (names, detect-chosen _ vendor (offered (i ∷ is)) names)
