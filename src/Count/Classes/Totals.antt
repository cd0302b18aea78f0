-- ===== src/Count/Classes/Totals.antt =====
-- Counts add up: over the files of a jar, over the visits of a walk, over walks.
use jvm_vendors.Base.{
  ℕ, ◌+◌, ◌≡◌, refl, sym, ◌∙◌, ap, Bool, true, false, not, ◌&&◌, ◌||◌, List, [], ◌∷◌, ◌++◌,
  if◌then◌else◌, ◌==◌, arith,
}
use jvm_vendors.Base.Result.{Result, ok, err, ◌>>=◌, bind_congr}
use jvm_vendors.Base.Text.{codes, contains, base_name}
use jvm_vendors.Count.Classes.{
  ClassError, ZipFile, Step, visit, walk_error, Opened, files, bad_format, failed, is_class, is_jar,
  jar_contents, nested_jar_contents, jar_files, opened_jar, count_step, walk, jar_classes,
}

-- A count that starts at `n` is `n` more than one that starts at 0.
abbrev plus : ℕ → Result ClassError ℕ → Result ClassError ℕ
plus n r = r >>= λ k. ok (n + k)

plus-plus : (a b : ℕ) (r : Result ClassError ℕ) → plus (a + b) r ≡ plus a (plus b r)
plus-plus a b (ok k) = ap ok (omega arith)
plus-plus a b (err e) = refl

jar_files-plus : (n : ℕ) (fs : List ZipFile) → jar_files n fs ≡ plus n (jar_files 0 fs)
unfolding jar_files
jar_files-plus n [] = ap ok (omega arith)
jar_files-plus n (f ∷ fs) =
    go (if is_jar (base_name f.name) then nested_jar_contents f.content else ok 0)
      (λ k. jar_files-plus k fs)
  where
    go :
        (r : Result ClassError ℕ)
        → ((k : ℕ) → jar_files k fs ≡ plus k (jar_files 0 fs))
        → (r >>= λ nested. jar_files (n + nested + jar_contents f.name) fs)
          ≡ plus n (r >>= λ nested. jar_files (0 + nested + jar_contents f.name) fs)
    go (err e) ih = refl
    go (ok c) ih =
        let e : n + c + jar_contents f.name ≡ n + (0 + c + jar_contents f.name) = omega arith in
        rw e (
          ih (n + (0 + c + jar_contents f.name))
          ∙ plus-plus n (0 + c + jar_contents f.name) (jar_files 0 fs)
          ∙ ap (plus n) (sym (ih (0 + c + jar_contents f.name))))

opened_jar-plus : (n : ℕ) (o : Opened ZipFile) → opened_jar n o ≡ plus n (opened_jar 0 o)
unfolding opened_jar
opened_jar-plus n (files fs) = jar_files-plus n fs
opened_jar-plus n bad_format = ap ok (omega arith)
opened_jar-plus n (failed e) = refl

if-plus :
    (n : ℕ) (b : Bool) (x y x' y' : Result ClassError ℕ)
    → x ≡ plus n x'
    → y ≡ plus n y'
    → (if b then x else y) ≡ plus n (if b then x' else y')
if-plus n true x y x' y' p q = p
if-plus n false x y x' y' p q = q

count_step-plus : (n : ℕ) (s : Step) → count_step n s ≡ plus n (count_step 0 s)
unfolding count_step
count_step-plus n (walk_error e) = refl
count_step-plus n (visit v) =
    let same : ◌≡◌ {A = Result ClassError ℕ} (ok n) (plus n (ok 0)) = ap ok (omega arith) in
    if-plus n (is_class v.path) _ _ _ _ (ap ok (omega arith)) (
      if-plus n (not (is_jar v.path) || v.is_dir) _ _ _ _ same (
        if-plus n (v.size == 0 && contains (base_name v.path) (codes "none")) _ _ _ _ same
          (opened_jar-plus n v.jar)))

walk-plus : (n : ℕ) (ss : List Step) → walk n ss ≡ plus n (walk 0 ss)
unfolding walk
walk-plus n [] = ap ok (omega arith)
walk-plus n (s ∷ ss) = rw (count_step-plus n s) (go (count_step 0 s) (λ k. walk-plus k ss))
  where
    go :
        (r : Result ClassError ℕ)
        → ((k : ℕ) → walk k ss ≡ plus k (walk 0 ss))
        → (plus n r >>= λ m. walk m ss) ≡ plus n (r >>= λ m. walk m ss)
    go (err e) ih = refl
    go (ok c) ih = ih (n + c) ∙ plus-plus n c (walk 0 ss) ∙ ap (plus n) (sym (ih c))

walk-append : (n : ℕ) (ss ts : List Step) → walk n (ss ++ ts) ≡ (walk n ss >>= λ m. walk m ts)
unfolding walk
walk-append n [] ts = refl
walk-append n (s ∷ ss) ts = go (count_step n s) (λ m. walk-append m ss ts)
  where
    go :
        (r : Result ClassError ℕ)
        → ((m : ℕ) → walk m (ss ++ ts) ≡ (walk m ss >>= λ k. walk k ts))
        → (r >>= λ m. walk m (ss ++ ts)) ≡ ((r >>= λ m. walk m ss) >>= λ k. walk k ts)
    go (err e) ih = refl
    go (ok m) ih = ih m

-- The classes of two walks, one after the other, are the classes of the first and those of the
-- second; the first error of the two is the error of both.
pub jar_classes-append :
    (ss ts : List Step)
    → jar_classes (ss ++ ts) ≡ (jar_classes ss >>= λ a. jar_classes ts >>= λ b. ok (a + b))
unfolding jar_classes
jar_classes-append ss ts = walk-append 0 ss ts ∙ bind_congr (walk 0 ss) _ _ (λ a _. walk-plus a ts)
