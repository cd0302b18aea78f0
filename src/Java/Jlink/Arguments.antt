-- ===== src/Java/Jlink/Arguments.antt =====
-- Which of the user's arguments jlink is given.
use jvm_vendors.Base.{
  ℕ, ◌≡◌, refl, ap, Bool, true, false, ◌||◌, Option, none, some, List, [], ◌∷◌, ◌++◌, All,
  Bool-cases, inl, inr, if◌then◌else◌,
}
use mathlib.Core.Option
use mathlib.Core.List.{append_assoc}
use jvm_vendors.Base.Text.{Text, codes}
use jvm_vendors.Java.Jlink.{
  is_output, is_add_modules, valid_loop, valid_args, list_jvm_modules, with_modules,
  kept_or_default, to_output, jlink_args,
}

module _ (other : ℕ → ℕ) where
  -- Whether an argument names modules.
  unfoldable pub names_modules : List Text → Bool
  names_modules [] = false
  names_modules (a ∷ rest) = is_add_modules other a || names_modules rest

  -- No argument asks for an output.
  abbrev pub HasNoOutput : List Text → Type 0
  HasNoOutput args = All (λ a. is_output other a ≡ false) args

  valid_loop-HasNoOutput :
      (skip : Bool) (args : List Text)
      → HasNoOutput (valid_loop other skip args).0
        × ((valid_loop other skip args).1 ≡ names_modules (valid_loop other skip args).0)
  unfolding valid_loop names_modules
  valid_loop-HasNoOutput skip [] = (tt, refl)
  valid_loop-HasNoOutput true (a ∷ rest) = valid_loop-HasNoOutput false rest
  valid_loop-HasNoOutput false (a ∷ rest) =
      let (clean, same) = valid_loop-HasNoOutput (is_output other a) rest in
      elim (Bool-cases (is_output other a)) [
        | inl e ↦ rw e (rw e at clean, rw e at same)
        | inr e ↦ rw e ((e, (rw e at clean)), cc (rw e at same))
      ]

  -- What is kept of some arguments: those for an output are dropped, each with the argument that
  -- follows it, whatever that is.
  pub data Keeps : List Text → List Text → Type 0 where
    nothing : Keeps [] []
    keep :
        (a : Text) (args kept : List Text)
        → is_output other a ≡ false
        → Keeps args kept
        → Keeps (a ∷ args) (a ∷ kept)
    drop :
        (a value : Text) (args kept : List Text)
        → is_output other a ≡ true
        → Keeps args kept
        → Keeps (a ∷ value ∷ args) kept
    drop_last : (a : Text) → is_output other a ≡ true → Keeps (a ∷ []) []

  valid_loop-Keeps : (args : List Text) → Keeps args (valid_loop other false args).0
  unfolding valid_loop
  valid_loop-Keeps [] = nothing
  valid_loop-Keeps (a ∷ []) = elim (Bool-cases (is_output other a)) [
    | inl e ↦ rw e (drop_last a e)
    | inr e ↦ rw e (keep a [] [] e nothing)
  ]
  valid_loop-Keeps (a ∷ b ∷ args) = elim (Bool-cases (is_output other a)) [
    | inl e ↦ rw e (drop a b args _ e (valid_loop-Keeps args))
    | inr e ↦ rw e (keep a (b ∷ args) _ e (valid_loop-Keeps (b ∷ args)))
  ]

  -- The arguments for the output of jlink.
  abbrev pub output_args : Text → List Text
  output_args path = codes "--output" ∷ path ∷ []

  -- The arguments for the modules of the JVM.
  abbrev pub module_args : Text → List Text
  module_args modules = codes "--add-modules" ∷ list_jvm_modules other modules ∷ []

  -- The arguments behind those that are kept.
  abbrev pub completed : List Text → Option Text → Text → Option (List Text)
  completed kept modules path =
      if names_modules kept
      then some (kept ++ output_args path)
      else Option.map (λ m. kept ++ (module_args m ++ output_args path)) modules

  kept-completed :
      (kept : List Text) (named : Bool) (modules : Option Text) (path : Text)
      → named ≡ names_modules kept
      → to_output other path (kept_or_default other (kept, named) modules)
        ≡ completed kept modules path
  unfolding to_output kept_or_default with_modules
  kept-completed kept true modules path e = rw (← e)
  kept-completed kept false none path e = rw (← e)
  kept-completed kept false (some m) path e = rw (← e) (ap some (append_assoc kept _ _))

  added-module_args :
      (args : List Text) (modules : Option Text) (path : Text)
      → jlink_args other false args modules path
        ≡ Option.map (λ m. args ++ (module_args m ++ output_args path)) modules
  unfolding jlink_args to_output with_modules
  added-module_args args none path = refl
  added-module_args args (some m) path = ap some (append_assoc args _ _)

  -- Of arguments that the user has set, each that begins with --output, in any case, is dropped with the
  -- argument behind it, also if it has its value in itself as --output=x; jlink is given the others, and
  -- none of them is for an output. Other arguments are given as they are. Behind them stand the modules of
  -- the JVM, unless an argument of the user that is kept names modules, and at last the output, which is
  -- the path of the layer. There are no arguments if the modules are needed and cannot be listed.
  pub jlink_args-Keeps :
      (args : List Text) (modules : Option Text) (path : Text)
      → (kept : List Text) × Keeps args kept
        × HasNoOutput kept
        × (jlink_args other true args modules path ≡ completed kept modules path)
        × (jlink_args other false args modules path
            ≡ Option.map (λ m. args ++ (module_args m ++ output_args path)) modules)
  unfolding jlink_args valid_args
  jlink_args-Keeps args modules path =
      let (clean, same) = valid_loop-HasNoOutput false args in
      (
        (valid_loop other false args).0,
        valid_loop-Keeps args,
        clean,
        kept-completed (valid_loop other false args).0 (valid_loop other false args).1 modules path
            same,
        added-module_args args modules path,
      )

  -- No argument for an output is kept, and the arguments are valid exactly if one that is kept names
  -- modules.
  pub valid_args-HasNoOutput :
      (args : List Text)
      → HasNoOutput (valid_args other args).0
        × ((valid_args other args).1 ≡ names_modules (valid_args other args).0)
  unfolding valid_args
  valid_args-HasNoOutput args = valid_loop-HasNoOutput false args
