-- ===== src/Java/Generate/Left.antt =====
-- The files that Generate leaves when it writes and fails.
use jvm_vendors.Base.{
  ◌≡◌, ◌≢◌, refl, ap, Bool, true, false, Option, none, some, [], ◌∷◌, ◌++◌, if◌then◌else◌,
}
use jvm_vendors.Base.FilePath.{join_path}
use jvm_vendors.Base.Result.{ok, err}
use jvm_vendors.Base.Text.{Text}
use jvm_vendors.Java.Generate.{
  GenerateContext, GenerateError, bad_plan, bad_library, content_failed, cannot_create, cannot_copy,
  cannot_encode, Files, Generated, then_file, copied, write_file, write_dockerfile, write_encoded,
}

-- A file that is written whole.
abbrev pub whole : Text → Text → Text × Option Text
whole path s = (path, some s)

module _ {R : Type 0} (c : GenerateContext R) where
  abbrev pub path_of : Text → Text
  path_of name = join_path (c.output_directory ∷ name ∷ [])

  abbrev pub IsWhole : Files → Type 0
  IsWhole [] = Unit
  IsWhole ((path, s) ∷ files) = (s ≢ none) × IsWhole files

  -- What an error leaves: nothing if no file was to be written yet, whole files, or whole files and at
  -- last one that is not.
  abbrev pub Leaves : Files → GenerateError → Type 0
  Leaves files cannot_copy =
      (front : Files) × (path : Text) × IsWhole front × (files ≡ front ++ (path, none) ∷ [])
  Leaves files cannot_create = IsWhole files
  Leaves files cannot_encode = IsWhole files
  Leaves files bad_plan = files ≡ []
  Leaves files bad_library = files ≡ []
  Leaves files content_failed = files ≡ []

  -- The same for the writes alone.
  abbrev pub LeavesLate : Generated R → Type 0
  LeavesLate (files, ok r) = Unit
  LeavesLate (files, err bad_plan) = ⊥
  LeavesLate (files, err bad_library) = ⊥
  LeavesLate (files, err content_failed) = ⊥
  LeavesLate (files, err e) = Leaves files e

  then_file-LeavesLate :
      (path s : Text) (rest : Generated R)
      → LeavesLate rest
      → LeavesLate (then_file c (whole path s ∷ []) rest)
  unfolding then_file
  then_file-LeavesLate path s (files, ok r) h = tt
  then_file-LeavesLate path s (files, err bad_plan) h = h
  then_file-LeavesLate path s (files, err bad_library) h = h
  then_file-LeavesLate path s (files, err content_failed) h = h
  then_file-LeavesLate path s (files, err cannot_create) h = ((λ e. cc), h)
  then_file-LeavesLate path s (files, err cannot_encode) h = ((λ e. cc), h)
  then_file-LeavesLate path s (files, err cannot_copy) (front, last, w, e) =
      (whole path s ∷ front, last, ((λ f. cc), w), ap (λ t. whole path s ∷ t) e)

  created-LeavesLate :
      (b : Bool) (path : Text) (reader : Option Text) (rest : Generated R)
      → LeavesLate rest
      → LeavesLate (if b then copied c path reader rest else ([], err cannot_create))
  unfolding copied
  created-LeavesLate false path reader rest h = tt
  created-LeavesLate true path none rest h = ([], path, tt, refl)
  created-LeavesLate true path (some s) rest h = then_file-LeavesLate path s rest h

  write_file-LeavesLate :
      (name : Text) (reader : Option Text) (rest : Generated R)
      → LeavesLate rest
      → LeavesLate (write_file c name reader rest)
  unfolding write_file
  write_file-LeavesLate name reader rest h =
      created-LeavesLate (c.creates (path_of name)) (path_of name) reader rest h

  pub write_dockerfile-LeavesLate :
      (name : Text) (o : Option (Option Text)) (rest : Generated R)
      → LeavesLate rest
      → LeavesLate (write_dockerfile c name o rest)
  unfolding write_dockerfile
  write_dockerfile-LeavesLate name none rest h = h
  write_dockerfile-LeavesLate name (some reader) rest h = write_file-LeavesLate name reader rest h

  pub write_encoded-LeavesLate :
      (name : Text) (o : Option Text) (r : R) → LeavesLate (write_encoded c name o ([], ok r))
  unfolding write_encoded
  write_encoded-LeavesLate name none r = tt
  write_encoded-LeavesLate name (some s) r = write_file-LeavesLate name (some s) _ (tt)
