-- ===== src/Helper/Env.antt =====
-- What a helper is given and what it returns: the environment of the process, the variables that
-- it sets, and the packages sherpa and shellwords, which are parameters.
use jvm_vendors.Base.{
  Bool, false, Option, none, some, List, [], ◌∷◌, ◌++◌, String, ◌≡◌, ◌≢◌, refl, sym,
}
use mathlib.Core.List.{append-nil}
use jvm_vendors.Base.Text.{Text, join}
use jvm_vendors.Base.Text.Numbers.{parse_bool}

-- `os.LookupEnv`
abbrev pub Env : Type 0
Env = String → Option Text

-- The map that `Execute` returns; nil is the empty list.
abbrev pub Variables : Type 0
Variables = List (String × Text)

pub data HelperError : Type 0 where
  missing_variable : String → HelperError
  bad_variable : String → Text → HelperError
  unparsable_options cannot_make_directory cannot_open cannot_write cannot_load : HelperError

-- `shellwords.Parse`
abbrev pub Shellwords : Type 0
Shellwords = Text → Option (List Text)

-- The values of a variable: none or one.
abbrev pub values : Option Text → List Text
values none = []
values (some s) = s ∷ []

-- Go's empty string for a variable that is not set.
abbrev pub or_empty : Option Text → Text
or_empty none = []
or_empty (some s) = s

-- sherpa.ResolveBool, ResolveBoolWithDefault, GetEnvWithDefault and AppendToEnvVar.
pub record Sherpa : Type 0 where
  pub resolve_bool : Env → String → Bool
  pub resolve_bool_with_default : Env → String → Bool → Bool
  pub get_env_with_default : Env → String → Text → Text
  pub append_to_env_var : Env → String → Text → List Text → Text

true_if_read : Option Bool → Bool
true_if_read none = false
true_if_read (some b) = b

-- Whether a variable is set to a text for true.
unfoldable pub is_on : Env → String → Bool
unfolding true_if_read
is_on e k = elim (e k) [ none ↦ false | some v ↦ true_if_read (parse_bool v) ]

-- The documented behaviour of three functions: a Boolean is true exactly for a variable that is set to
-- a text for true, a variable that is set has its value, and values are appended behind the delimiter
-- to a variable that is set.
pub record IsDocumented (s : Sherpa) : Type 0 where
  pub bool_value : (e : Env) (k : String) → s.resolve_bool e k ≡ is_on e k
  pub set_value :
      (e : Env) (k : String) (d v : Text) → e k ≡ some v → s.get_env_with_default e k d ≡ v
  pub default_value :
      (e : Env) (k : String) (d : Text) → e k ≡ none → s.get_env_with_default e k d ≡ d
  pub appended :
      (e : Env) (k : String) (delimiter : Text) (vs : List Text)
      → s.append_to_env_var e k delimiter vs ≡ join (values (e k) ++ vs) delimiter

abbrev pub java_tool_options : String
java_tool_options = "JAVA_TOOL_OPTIONS"

-- A joined text begins with the value that was set.
pub join-values :
    (o : Option Text) (vs : List Text) (sep : Text)
    → (more : Text) × (join (values o ++ vs) sep ≡ or_empty o ++ more)
unfolding join
join-values none vs sep = (join vs sep, refl)
join-values (some s) [] sep = ([], sym (append-nil s))
join-values (some s) (v ∷ vs) sep = (sep ++ join (v ∷ vs) sep, refl)

-- An error that is not a variable that is missing.
abbrev pub NamesNone : HelperError → Type 0
NamesNone e = (k : String) → e ≢ missing_variable k
