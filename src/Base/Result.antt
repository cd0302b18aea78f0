-- ===== src/Base/Result.antt =====
-- Go's `(value, error)` pair: a function that may fail returns a value or an error. A run-time
-- panic is an error of its own, since the caller does not see it as an `error` value.
use mathlib.Core.Path.{◌≡◌, refl, subst}
use mathlib.Core.Bool.{Bool, true, false}
use mathlib.Core.Logic.{◌⊎◌, inl, inr}
use jvm_vendors.Base.Tests.{if◌then◌else◌}

pub data Result {ℓ κ} (E : Type ℓ) (A : Type κ) : Type (ℓ ⊔ κ) where
  ok : A → Result E A
  err : E → Result E A

infixl 5 ◌>>=◌
abbrev pub ◌>>=◌ {ℓ κ μ} :
    {E : Type ℓ} {A : Type κ} {B : Type μ} → Result E A → (A → Result E B) → Result E B
err e >>= rest = err e
ok x >>= rest = rest x

-- `fmt.Errorf("...%w", err)`: the error of a callee inside an error of the caller.
abbrev pub map_err {ℓ κ μ} :
    {E : Type ℓ} {F : Type κ} {A : Type μ} → (E → F) → Result E A → Result F A
map_err f (ok a) = ok a
map_err f (err e) = err (f e)

-- A success behind a step: what the step returned, and that the rest succeeds on it.
pub >>=-eq-ok {ℓ κ μ} :
    {E : Type ℓ} {A : Type κ} {B : Type μ} (step : Result E A) (rest : A → Result E B) {y : B}
    → (step >>= rest) ≡ ok y
    → (x : A) × (step ≡ ok x) × (rest x ≡ ok y)
>>=-eq-ok (err e) rest h = cc
>>=-eq-ok (ok x) rest h = (x, refl, h)

pub map_err-eq-ok {ℓ κ μ} :
    {E : Type ℓ} {F : Type κ} {A : Type μ} (f : E → F) (r : Result E A) {a : A}
    → map_err f r ≡ ok a
    → r ≡ ok a
map_err-eq-ok f (ok a) h = cc
map_err-eq-ok f (err e) h = cc

-- Inversion of a test that fails, and of a success.
pub if-eq-ok {ℓ κ} :
    {E : Type ℓ} {A : Type κ} (b : Bool) (e : E) (r : Result E A) {a : A}
    → (if b then err e else r) ≡ ok a
    → (b ≡ false) × (r ≡ ok a)
if-eq-ok true e r h = cc
if-eq-ok false e r h = (refl, h)

pub ok-injective {ℓ κ} :
    {E : Type ℓ} {A : Type κ} {a b : A} → ◌≡◌ {A = Result E A} (ok a) (ok b) → a ≡ b
ok-injective h = cc

-- Inversion of a test that fails with an error.
pub if-eq-err {ℓ κ} :
    {E : Type ℓ} {A : Type κ} (b : Bool) (e : E) (r : Result E A) {x : E}
    → (if b then err e else r) ≡ err x
    → ((b ≡ true) × (e ≡ x)) ⊎ ((b ≡ false) × (r ≡ err x))
if-eq-err true e r h = inl (refl, cc)
if-eq-err false e r h = inr (refl, h)

-- Two continuations that agree on what `m` returns.
pub bind_congr {ℓ κ μ} :
    {E : Type ℓ} {A : Type κ} {B : Type μ} (m : Result E A) (f g : A → Result E B)
    → ((a : A) → m ≡ ok a → f a ≡ g a)
    → (m >>= f) ≡ (m >>= g)
bind_congr (ok a) f g h = h a refl
bind_congr (err e) f g h = refl

-- An error has a property; a value has any.
abbrev pub FailsWith {ℓ κ μ} : {E : Type ℓ} {A : Type κ} → (E → Type μ) → Result E A → Type μ
FailsWith P (ok a) = Unit
FailsWith P (err e) = P e

pub >>=-FailsWith {ℓ κ μ ν} :
    {E : Type ℓ} {A : Type κ} {B : Type μ} (P : E → Type ν) (m : Result E A) (rest : A → Result E B)
    → FailsWith P m
    → ((a : A) → m ≡ ok a → FailsWith P (rest a))
    → FailsWith P (m >>= rest)
>>=-FailsWith P (ok a) rest h k = k a refl
>>=-FailsWith P (err e) rest h k = h

pub map_err-FailsWith {ℓ κ μ ν} :
    {E : Type ℓ} {F : Type κ} {A : Type μ} (P : F → Type ν) (f : E → F) (r : Result E A)
    → ((e : E) → r ≡ err e → P (f e))
    → FailsWith P (map_err f r)
map_err-FailsWith P f (ok a) k = tt
map_err-FailsWith P f (err e) k = k e refl

pub FailsWith-err {ℓ κ μ} :
    {E : Type ℓ} {A : Type κ} (P : E → Type μ) (r : Result E A) {e : E}
    → FailsWith P r
    → r ≡ err e
    → P e
FailsWith-err P (ok a) h f = cc
FailsWith-err P (err e') h f = subst P (cc) h

pub FailsWith-imp {ℓ κ μ ν} :
    {E : Type ℓ} {A : Type κ} (P : E → Type μ) (Q : E → Type ν) (r : Result E A)
    → ((e : E) → P e → Q e)
    → FailsWith P r
    → FailsWith Q r
FailsWith-imp P Q (ok a) f h = tt
FailsWith-imp P Q (err e) f h = f e h
