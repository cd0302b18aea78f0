-- ===== src/Count/Classes.antt =====
-- count/count_classes.go: the classes of an application, in its directories and jars. What the file
-- system and the package archive/zip find is given: for each path the entries of the walk, in their
-- order, each with the result of opening it as a jar.
pub mod Totals
pub mod Names
use jvm_vendors.Base.{
  ℕ, zero, ◌+◌, ◌≡◌, refl, Bool, true, false, not, ◌&&◌, ◌||◌, List, [], ◌∷◌, if◌then◌else◌, ◌==◌,
}
use jvm_vendors.Base.Result.{Result, ok, err, ◌>>=◌, map_err}
use jvm_vendors.Base.Text.{Text, codes, has_suffix, contains, base_name}
use jvm_vendors.Count.Reader.{Bytes, ImageError}
use jvm_vendors.Count.Image.{module_classes}

-- `not_exist` is fs.ErrNotExist, which the wrapping of errors keeps.
pub data ClassError : Type 0 where
  not_exist other_error : ClassError
  bad_image : ImageError → ClassError

-- A jar that is opened: its files, or an error that is zip.ErrFormat or not.
pub data Opened {ℓ} (A : Type ℓ) : Type ℓ where
  files : List A → Opened A
  bad_format : Opened A
  failed : ClassError → Opened A

-- A file of a jar: its name, and its content opened as a jar of names.
pub record ZipFile : Type 0 where
  pub name : Text
  pub content : Opened Text

-- What the walk visits: a path with an error, or with its file information.
pub record Visit : Type 0 where
  pub path : Text
  pub is_dir : Bool
  pub size : ℕ
  pub jar : Opened ZipFile

pub data Step : Type 0 where
  visit : Visit → Step
  walk_error : ClassError → Step

-- ClassExtensions
unfoldable pub is_class : Text → Bool
is_class name =
    has_suffix name (codes ".class")
    || has_suffix name (codes ".classdata")
    || has_suffix name (codes ".clj")
    || has_suffix name (codes ".groovy")
    || has_suffix name (codes ".kts")

unfoldable pub is_jar : Text → Bool
is_jar name = has_suffix name (codes ".jar")

-- `jarContents`
unfoldable pub jar_contents : Text → ℕ
jar_contents name = if is_class name then 1 else 0

names_total : ℕ → List Text → ℕ
names_total n [] = n
names_total n (f ∷ fs) = names_total (n + jar_contents f) fs

-- `nestedJarContents`
unfoldable pub nested_jar_contents : Opened Text → Result ClassError ℕ
unfolding names_total jar_contents
nested_jar_contents (files fs) = ok (names_total 0 fs)
nested_jar_contents bad_format = ok 0
nested_jar_contents (failed e) = err e

-- The loop over the files of a jar.
jar_files : ℕ → List ZipFile → Result ClassError ℕ
jar_files n [] = ok n
jar_files n (f ∷ fs) =
    (if is_jar (base_name f.name) then nested_jar_contents f.content else ok 0) >>= λ nested.
    jar_files (n + nested + jar_contents f.name) fs

opened_jar : ℕ → Opened ZipFile → Result ClassError ℕ
opened_jar n (files fs) = jar_files n fs
opened_jar n bad_format = ok n
opened_jar n (failed e) = err e

-- The function that the walk calls; `n` is the count so far.
pub count_visit : ℕ → Visit → Result ClassError ℕ
unfolding opened_jar jar_files
count_visit n v =
    if is_class v.path
    then ok (n + 1)
    else if not (is_jar v.path) || v.is_dir
    then ok n
    else if v.size == 0 && contains (base_name v.path) (codes "none")
    then ok n
    else opened_jar n v.jar

pub count_step : ℕ → Step → Result ClassError ℕ
unfolding count_visit
count_step n (visit v) = count_visit n v
count_step n (walk_error e) = err e

pub walk : ℕ → List Step → Result ClassError ℕ
walk n [] = ok n
walk n (s ∷ ss) = count_step n s >>= λ m. walk m ss

-- `JarClasses`
unfoldable pub jar_classes : List Step → Result ClassError ℕ
unfolding walk count_step is_class is_jar
jar_classes steps = walk 0 steps

-- `os.Stat` of lib/modules, which the directory has, has not, or fails to show.
pub data Modules : Type 0 where
  modules : Bytes → Modules
  no_modules : Modules
  stat_error : ClassError → Modules

-- `Classes`: the classes of the jimage file, if there is one, and else of the jars.
unfoldable pub classes : Modules → List Step → Result ClassError ℕ
unfolding jar_classes module_classes
classes (stat_error e) steps = err e
classes no_modules steps = jar_classes steps
classes (modules file) steps = map_err bad_image (module_classes file)

-- The outcome of one path, before the totals so far are used.
add_path : ℕ × ℕ → Result ClassError ℕ → Result ClassError (ℕ × ℕ)
add_path (n, skipped) (ok c) = ok (n + c, skipped)
add_path (n, skipped) (err not_exist) = ok (n, skipped + 1)
add_path (n, skipped) (err e) = err e

paths_total : ℕ × ℕ → List (List Step) → Result ClassError (ℕ × ℕ)
paths_total totals [] = ok totals
paths_total totals (p ∷ ps) = add_path totals (jar_classes p) >>= λ next. paths_total next ps

-- `JarClassesFrom`: the classes of all paths, and the number of paths that do not exist.
unfoldable pub jar_classes_from : List (List Step) → Result ClassError (ℕ × ℕ)
unfolding paths_total add_path
jar_classes_from paths = paths_total (0, 0) paths
