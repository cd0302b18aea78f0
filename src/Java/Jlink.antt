-- ===== src/Java/Jlink.antt =====
-- jlink.go: the arguments that the user gives to jlink, and the modules of the JVM.
pub mod Arguments
pub mod Contribute
use jvm_vendors.Base.{
  ℕ, Bool, true, false, ◌||◌, Option, none, some, List, [], ◌∷◌, ◌++◌, if◌then◌else◌,
}
use jvm_vendors.Base.Text.{Text, codes, trim_space, lower, has_prefix, join}
use jvm_vendors.Base.Text.Split.{split, cut}

module _ (other : ℕ → ℕ) where
  pub is_output : Text → Bool
  is_output a = has_prefix (lower other a) (codes "--output")

  pub is_add_modules : Text → Bool
  is_add_modules a = has_prefix (lower other a) (codes "--add-modules")

  -- The loop, which writes what it keeps over the arguments that it has read: whether the next argument is skipped, and the arguments; what is kept, and whether
  -- modules are named.
  valid_loop : Bool → List Text → List Text × Bool
  unfolding is_output is_add_modules
  valid_loop skip [] = ([], false)
  valid_loop true (a ∷ rest) = valid_loop false rest
  valid_loop false (a ∷ rest) =
      let (kept, found) = valid_loop (is_output a) rest in
      if is_output a then (kept, found) else (a ∷ kept, is_add_modules a || found)

  -- `validArgs`
  unfoldable pub valid_args : List Text → List Text × Bool
  unfolding valid_loop
  valid_args args = valid_loop false args

  java_modules : List Text → List Text
  java_modules [] = []
  java_modules (m ∷ ms) =
      let rest = java_modules ms in
      if has_prefix m (codes "java.") then (cut b'@' m).0 ∷ rest else rest

  -- `listJVMModules` on the output of `java --list-modules`
  unfoldable pub list_jvm_modules : Text → Text
  unfolding java_modules
  list_jvm_modules output = join (java_modules (split b'\n' (trim_space output))) (codes ",")

  with_modules : List Text → Option Text → Option (List Text)
  with_modules args none = none
  with_modules args (some output) =
      some (args ++ codes "--add-modules" ∷ list_jvm_modules output ∷ [])

  kept_or_default : List Text × Bool → Option Text → Option (List Text)
  kept_or_default (args, true) output = some args
  kept_or_default (args, false) output = with_modules args output

  to_output : Text → Option (List Text) → Option (List Text)
  to_output path none = none
  to_output path (some args) = some (args ++ codes "--output" ∷ path ∷ [])

  -- The arguments that `Contribute` gives to jlink; without the list of the modules it fails.
  unfoldable pub jlink_args : Bool → List Text → Option Text → Text → Option (List Text)
  unfolding kept_or_default with_modules to_output
  jlink_args user_configured args output path = to_output path (
      if user_configured
      then kept_or_default (valid_args args) output
      else with_modules args output)
