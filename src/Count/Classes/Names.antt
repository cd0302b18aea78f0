-- ===== src/Count/Classes/Names.antt =====
-- The classes of an application, by the names that are found: the paths of the walk, the names in
-- jars, and the names in jars in jars.
use jvm_vendors.Base.{
  ℕ, ◌+◌, ◌≡◌, ◌↔◌, ◌≢◌, refl, sym, ◌∙◌, ap, Bool, true, false, not, ◌&&◌, ◌||◌, List, [], ◌∷◌,
  ◌++◌, if◌then◌else◌, ◌==◌, arith, subst, Bool-cases, inl, inr,
}
use jvm_vendors.Base.Result.{Result, ok, err, ◌>>=◌}
use jvm_vendors.Base.Text.{Text, codes, contains, base_name, has_suffix, text_eq, text_eq_sound}
use jvm_vendors.Count.Classes.{
  ClassError, ZipFile, Step, Visit, visit, walk_error, Opened, files, bad_format, failed, is_class,
  is_jar, jar_contents, names_total, nested_jar_contents, jar_files, opened_jar, count_visit,
  count_step, walk, jar_classes,
}

-- A jar in a jar: the names in it, and whether it can be read. What is no jar has none.
nested_names : Opened Text → List Text
nested_names (files fs) = fs
nested_names bad_format = []
nested_names (failed e) = []

is_readable {ℓ} : {A : Type ℓ} → Opened A → Bool
is_readable (files fs) = true
is_readable bad_format = true
is_readable (failed e) = false

entry_names : ZipFile → List Text
entry_names f = f.name ∷ (if is_jar (base_name f.name) then nested_names f.content else [])

entries_names : List ZipFile → List Text
entries_names [] = []
entries_names (f ∷ fs) = entry_names f ++ entries_names fs

entries_readable : List ZipFile → Bool
entries_readable [] = true
entries_readable (f ∷ fs) =
    (not (is_jar (base_name f.name)) || is_readable f.content) && entries_readable fs

jar_names : Opened ZipFile → List Text
jar_names (files fs) = entries_names fs
jar_names bad_format = []
jar_names (failed e) = []

jar_readable : Opened ZipFile → Bool
jar_readable (files fs) = entries_readable fs
jar_readable bad_format = true
jar_readable (failed e) = false

-- The jars that are looked into: files, but not an empty one with `none` in its name.
is_opened : Visit → Bool
is_opened v =
    is_jar v.path && not v.is_dir && not (v.size == 0 && contains (base_name v.path) (codes "none"))

-- All names that the walk finds, and whether it finds no error.
pub names : List Step → List Text
names [] = []
names (walk_error e ∷ ss) = names ss
names (visit v ∷ ss) = (v.path ∷ (if is_opened v then jar_names v.jar else [])) ++ names ss

pub readable : List Step → Bool
readable [] = true
readable (walk_error e ∷ ss) = false
readable (visit v ∷ ss) = (not (is_opened v) || jar_readable v.jar) && readable ss

-- How many names are those of classes.
pub classes_in : List Text → ℕ
classes_in [] = 0
classes_in (t ∷ ts) = (if is_class t then 1 else 0) + classes_in ts

classes_in-append : (ss ts : List Text) → classes_in (ss ++ ts) ≡ classes_in ss + classes_in ts
unfolding classes_in
classes_in-append [] ts = omega arith
classes_in-append (s ∷ ss) ts = omega (arith, classes_in-append ss ts)

-- A count agrees with what is found if it is its number, or an error where something cannot be read.
abbrev Agrees : Result ClassError ℕ → Bool → ℕ → Type 0
Agrees (ok k) b n = (b ≡ true) × (k ≡ n)
Agrees (err e) b n = b ≡ false

Agrees->>= :
    (r : Result ClassError ℕ) (rest : ℕ → Result ClassError ℕ) (b c : Bool) (a n : ℕ)
    → Agrees r b a
    → Agrees (rest a) c n
    → Agrees (r >>= rest) (b && c) n
Agrees->>= (ok k) rest b c a n (hb, e) h = rw (hb, e) h
Agrees->>= (err e) rest b c a n hb h = rw hb refl

names_total-classes_in : (n : ℕ) (ts : List Text) → names_total n ts ≡ n + classes_in ts
unfolding names_total classes_in jar_contents
names_total-classes_in n [] = omega arith
names_total-classes_in n (t ∷ ts) = omega (arith, names_total-classes_in (n + jar_contents t) ts)

nested_jar_contents-Agrees :
    (o : Opened Text) → Agrees (nested_jar_contents o) (is_readable o) (classes_in (nested_names o))
unfolding nested_jar_contents is_readable nested_names classes_in
nested_jar_contents-Agrees (files fs) = (refl, names_total-classes_in 0 fs ∙ omega arith)
nested_jar_contents-Agrees bad_format = (refl, refl)
nested_jar_contents-Agrees (failed e) = refl

-- A nested jar, if the entry is one.
nested-Agrees :
    (b : Bool) (o : Opened Text)
    → Agrees
        (if b then nested_jar_contents o else ok 0)
        (not b || is_readable o)
        (classes_in (if b then nested_names o else []))
unfolding classes_in
nested-Agrees true o = nested_jar_contents-Agrees o
nested-Agrees false o = (refl, refl)

entry-classes_in :
    (n : ℕ) (f : ZipFile) (ts : List Text)
    → n
        + classes_in (if is_jar (base_name f.name) then nested_names f.content else [])
        + jar_contents f.name
        + classes_in ts
      ≡ n + classes_in (entry_names f ++ ts)
unfolding entry_names classes_in jar_contents
entry-classes_in n f ts =
    omega (
      arith,
      classes_in-append (if is_jar (base_name f.name) then nested_names f.content else []) ts,
    )

jar_files-Agrees :
    (n : ℕ) (fs : List ZipFile)
    → Agrees (jar_files n fs) (entries_readable fs) (n + classes_in (entries_names fs))
unfolding jar_files entries_readable entries_names classes_in
jar_files-Agrees n [] = (refl, omega arith)
jar_files-Agrees n (f ∷ fs) =
    let nested = (if is_jar (base_name f.name) then nested_names f.content else []) in
    let k = n + classes_in nested + jar_contents f.name in
    Agrees->>= _ (λ c. jar_files (n + c + jar_contents f.name) fs) _ _ (classes_in nested) _
      (nested-Agrees (is_jar (base_name f.name)) f.content)
      (subst (λ t. Agrees (jar_files k fs) (entries_readable fs) t)
        (entry-classes_in n f (entries_names fs)) (jar_files-Agrees k fs))

opened_jar-Agrees :
    (n : ℕ) (o : Opened ZipFile)
    → Agrees (opened_jar n o) (jar_readable o) (n + classes_in (jar_names o))
unfolding opened_jar jar_readable jar_names classes_in
opened_jar-Agrees n (files fs) = jar_files-Agrees n fs
opened_jar-Agrees n bad_format = (refl, omega arith)
opened_jar-Agrees n (failed e) = refl

-- The last character.
last : ℕ → Text → ℕ
last d [] = d
last d (c ∷ s) = last c s

has_suffix-last :
    (d : ℕ) (s : Text) (q : ℕ) (p : Text) → has_suffix s (q ∷ p) ≡ true → last d s ≡ last q p
unfolding has_suffix last
has_suffix-last d [] q p h = cc
has_suffix-last d (c ∷ s) q p h = elim (Bool-cases (text_eq (c ∷ s) (q ∷ p))) [
  | inl e ↦ ap (last 0) (text_eq_sound (c ∷ s) (q ∷ p) e)
  | inr e ↦ has_suffix-last c s q p (rw e at h)
]

-- The name of a class is not that of a jar: they end in different characters.
is_class-last : (s : Text) → is_class s ≡ true → last 0 s ≢ b'r'
unfolding is_class last
is_class-last s h = ground (
  arith,
  has_suffix-last 0 s b'.' (codes "class"),
  has_suffix-last 0 s b'.' (codes "classdata"),
  has_suffix-last 0 s b'.' (codes "clj"),
  has_suffix-last 0 s b'.' (codes "groovy"),
  has_suffix-last 0 s b'.' (codes "kts"),
)

is_class-is_jar : (s : Text) → is_class s ≡ true → is_jar s ≡ false
unfolding is_jar last
is_class-is_jar s h = elim (Bool-cases (is_jar s)) [
  | inl e ↦ absurd (is_class-last s h (has_suffix-last 0 s b'.' (codes "jar") e))
  | inr e ↦ e
]

-- The four tests of a visit: a class, a jar, a directory, an empty file with `none` in its name.
tests-Agrees :
    (n : ℕ) (class jar dir empty : Bool) (o : Opened ZipFile)
    → (class ≡ true → jar ≡ false)
    → Agrees
        (if class
          then ok (n + 1)
          else if not jar || dir
          then ok n
          else if empty
          then ok n
          else opened_jar n o)
        (not (jar && not dir && not empty) || jar_readable o)
        (n
          + ((if class then 1 else 0)
              + classes_in (if jar && not dir && not empty then jar_names o else [])))
unfolding classes_in
tests-Agrees n true true dir empty o apart = cc (apart refl)
tests-Agrees n true false dir empty o apart = (refl, omega arith)
tests-Agrees n false false dir empty o apart = (refl, omega arith)
tests-Agrees n false true true empty o apart = (refl, omega arith)
tests-Agrees n false true false true o apart = (refl, omega arith)
tests-Agrees n false true false false o apart =
    subst (λ k. Agrees (opened_jar n o) (jar_readable o) k) (omega arith) (opened_jar-Agrees n o)

count_visit-Agrees :
    (n : ℕ) (v : Visit)
    → Agrees
        (count_visit n v)
        (not (is_opened v) || jar_readable v.jar)
        (n + classes_in (v.path ∷ (if is_opened v then jar_names v.jar else [])))
unfolding count_visit is_opened classes_in
count_visit-Agrees n v =
    tests-Agrees n (is_class v.path) (is_jar v.path) v.is_dir
      (v.size == 0 && contains (base_name v.path) (codes "none")) v.jar (is_class-is_jar v.path)

walk-Agrees :
    (n : ℕ) (ss : List Step) → Agrees (walk n ss) (readable ss) (n + classes_in (names ss))
unfolding walk count_step readable names
walk-Agrees n [] = unfold classes_in in (refl, omega arith)
walk-Agrees n (walk_error e ∷ ss) = refl
walk-Agrees n (visit v ∷ ss) =
    let found = v.path ∷ (if is_opened v then jar_names v.jar else []) in
    Agrees->>= (count_visit n v) (λ m. walk m ss) _ (readable ss) (n + classes_in found) _
      (count_visit-Agrees n v)
      (subst (λ k. Agrees (walk (n + classes_in found) ss) (readable ss) k)
        (omega (arith, classes_in-append found (names ss))) (walk-Agrees (n + classes_in found) ss))

Agrees-eq-ok :
    (r : Result ClassError ℕ) (b : Bool) (k n : ℕ)
    → Agrees r b k
    → (r ≡ ok n) ↔ ((b ≡ true) × (n ≡ k))
Agrees-eq-ok (ok m) b k n (hb, e) = ((λ h. (hb, cc)), λ (h, f). ap ok (e ∙ sym f))
Agrees-eq-ok (err x) b k n hb = ((λ h. cc), λ (h, f). cc)

-- The classes are counted exactly if the walk and every jar that it opens can be read. Their number
-- is that of the names with the extension of a class among all names that are found: the paths of
-- the walk, the names in the jars, and the names in the jars in these.
pub jar_classes_iff :
    (ss : List Step) (n : ℕ)
    → (jar_classes ss ≡ ok n) ↔ ((readable ss ≡ true) × (n ≡ classes_in (names ss)))
unfolding jar_classes
jar_classes_iff ss n =
    Agrees-eq-ok (walk 0 ss) (readable ss) (classes_in (names ss)) n
      (subst (λ k. Agrees (walk 0 ss) (readable ss) k) (omega arith) (walk-Agrees 0 ss))
