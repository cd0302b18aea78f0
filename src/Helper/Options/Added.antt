-- ===== src/Helper/Options/Added.antt =====
-- Options are only added: what JAVA_TOOL_OPTIONS held stays in front of what a helper appends.
use jvm_vendors.Base.{
  ℕ, Bool, true, false, Option, none, some, List, [], ◌∷◌, ◌++◌, String, ◌≡◌, if◌then◌else◌, is_nil,
}
use jvm_vendors.Base.Result.{ok, err}
use jvm_vendors.Base.Text.{Text, codes, has_prefix}
use jvm_vendors.Helper.Env.{
  join-values, Env, Variables, Shellwords, values, or_empty, java_tool_options,
}
use jvm_vendors.Helper.Options.{
  Outcome, options, any, processor_count_flag, java_opts, add_java_opts, active_processor_count,
  add_processor_count, jvm_heap_dump, make_heap_dump, add_heap_dump, security_providers_classpath_8,
  add_ext_dirs,
}

-- A variable that is set to the options set before, with more behind them.
abbrev pub Extends : Env → String × Text → Type 0
Extends env (k, v) =
    k ≡ java_tool_options → (more : Text) × (v ≡ or_empty (env java_tool_options) ++ more)

abbrev pub AllExtend : Env → Variables → Type 0
AllExtend env [] = Unit
AllExtend env (kv ∷ vs) = Extends env kv × AllExtend env vs

-- An outcome that keeps the options; an error sets nothing.
abbrev pub Keeps : Env → Outcome → Type 0
Keeps env (ok vs) = AllExtend env vs
Keeps env (err e) = Unit

options-Keeps :
    (env : Env) (vs : List Text) → Keeps env (options (values (env java_tool_options) ++ vs))
options-Keeps env vs = ((λ _. join-values (env java_tool_options) vs (codes " ")), tt)

if-Keeps :
    (env : Env) (b : Bool) (x y : Outcome)
    → Keeps env x
    → Keeps env y
    → Keeps env (if b then x else y)
if-Keeps env true x y hx hy = hx
if-Keeps env false x y hx hy = hy

java_opts-Keeps : (env : Env) (o : Option Text) → Keeps env (add_java_opts env o)
unfolding add_java_opts
java_opts-Keeps env none = tt
java_opts-Keeps env (some jo) = options-Keeps env (jo ∷ [])

processor_count-Keeps :
    (env : Env) (cpus : ℕ) (w : Option (List Text))
    → Keeps env (add_processor_count cpus (values (env java_tool_options)) w)
unfolding add_processor_count
processor_count-Keeps env cpus none = tt
processor_count-Keeps env cpus (some words) =
    if-Keeps env (any (λ w. has_prefix w processor_count_flag) words) _ _ tt (options-Keeps env _)

heap_dump-Keeps :
    (env : Env) (path : Text) (w : Option (List Text))
    → Keeps env (add_heap_dump path (values (env java_tool_options)) w)
unfolding add_heap_dump
heap_dump-Keeps env path none = tt
heap_dump-Keeps env path (some words) = options-Keeps env _

make_heap_dump-Keeps :
    (shellwords : Shellwords) (mkdir : Text → Bool) (now : Text) (env : Env) (o : Option Text)
    → Keeps env (make_heap_dump shellwords mkdir now env o)
unfolding make_heap_dump
make_heap_dump-Keeps shellwords mkdir now env none = tt
make_heap_dump-Keeps shellwords mkdir now env (some path) =
    if-Keeps env (is_nil path) _ _ tt (if-Keeps env (mkdir path) _ _ (heap_dump-Keeps env _ _) tt)

ext_dirs-Keeps : (env : Env) (p : Text) (e : Option Text) → Keeps env (add_ext_dirs env p e)
unfolding add_ext_dirs
ext_dirs-Keeps env p none = tt
ext_dirs-Keeps env p (some e) = options-Keeps env _

classpath-Keeps :
    (env : Env) (p : Option Text)
    → Keeps env (elim p [ none ↦ ok [] | some q ↦ add_ext_dirs env q (env "BPI_JVM_EXT_DIR") ])
classpath-Keeps env none = tt
classpath-Keeps env (some q) = ext_dirs-Keeps env q (env "BPI_JVM_EXT_DIR")

-- JavaOpts, ActiveProcessorCount, JVMHeapDump and SecurityProvidersClasspath8 only add behind the
-- options that were set, whatever shellwords, the file system and the clock give.
pub options_helpers-Keeps :
    (shellwords : Shellwords) (cpus : ℕ) (mkdir : Text → Bool) (now : Text) (env : Env)
    → Keeps env (java_opts env)
      × Keeps env (active_processor_count shellwords cpus env)
      × Keeps env (jvm_heap_dump shellwords mkdir now env)
      × Keeps env (security_providers_classpath_8 env)
unfolding java_opts active_processor_count jvm_heap_dump security_providers_classpath_8
options_helpers-Keeps shellwords cpus mkdir now env = (
  java_opts-Keeps env (env "JAVA_OPTS"),
  processor_count-Keeps env cpus (shellwords (or_empty (env java_tool_options))),
  make_heap_dump-Keeps shellwords mkdir now env (env "BPL_HEAP_DUMP_PATH"),
  classpath-Keeps env (env "SECURITY_PROVIDERS_CLASSPATH"),
)
