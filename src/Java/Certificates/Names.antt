-- ===== src/Java/Certificates/Names.antt =====
-- The names that the certificates get in the key store.
use jvm_vendors.Base.{ℕ, ◌≡◌, refl, false, [], ◌∷◌, ◌++◌, arith, All-imp, ◌==◌, ap, sym, ◌∙◌, subst}
use jvm_vendors.Base.Text.{Text, is_digit}
use jvm_vendors.Base.Text.Decimal.{decimal, IsDigit, decimal-IsDigit, value, value-decimal}
use jvm_vendors.Base.Text.Split.{Lacks}
use jvm_vendors.Java.Certificates.{certificate_name}

Lacks_dash-IsDigit : (c : ℕ) → IsDigit c → (c == b'-') ≡ false
unfolding is_digit
Lacks_dash-IsDigit c h = ground arith

Lacks-decimal : (n : ℕ) → Lacks b'-' (decimal n)
Lacks-decimal n =
    All-imp IsDigit (λ c. (c == b'-') ≡ false) Lacks_dash-IsDigit (decimal n) (decimal-IsDigit n)

not-Lacks : {A : Type 0} (s t : Text) → Lacks b'-' (s ++ b'-' ∷ t) → A
not-Lacks [] t (h, hs) = cc
not-Lacks (c ∷ s) t (h, hs) = not-Lacks s t hs

-- A text is cut at its last dash in one way.
last_dash :
    (s t u v : Text)
    → Lacks b'-' u
    → Lacks b'-' v
    → s ++ b'-' ∷ u ≡ t ++ b'-' ∷ v
    → (s ≡ t) × (u ≡ v)
last_dash [] [] u v hu hv e = (refl, cc)
last_dash [] (c ∷ t) u v hu hv e =
    let e' : u ≡ t ++ b'-' ∷ v = cc in not-Lacks t v (subst (Lacks b'-') e' hu)
last_dash (c ∷ s) [] u v hu hv e =
    let e' : v ≡ s ++ b'-' ∷ u = cc in not-Lacks s u (subst (Lacks b'-') e' hv)
last_dash (c ∷ s) (d ∷ t) u v hu hv e =
    let e' : s ++ b'-' ∷ u ≡ t ++ b'-' ∷ v = cc in
    let (es, eu) = last_dash s t u v hu hv e' in (cc, eu)

decimal-injective : (i j : ℕ) → decimal i ≡ decimal j → i ≡ j
decimal-injective i j e = sym (value-decimal i) ∙ ap value e ∙ value-decimal j

pub certificate_name-injective :
    (f g : Text) (i j : ℕ) → certificate_name f i ≡ certificate_name g j → (f ≡ g) × (i ≡ j)
unfolding certificate_name
certificate_name-injective f g i j e =
    let (ef, ei) = last_dash f g (decimal i) (decimal j) (Lacks-decimal i) (Lacks-decimal j) e in
    (ef, decimal-injective i j ei)
