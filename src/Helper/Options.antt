-- ===== src/Helper/Options.antt =====
-- helper/java_opts.go, active_processor_count.go, jvm_heap_dump.go, debug_8.go, debug_9.go, jmx.go,
-- jfr.go, nmt.go, security_providers_classpath_8.go and security_providers_classpath_9.go: the
-- helpers that add options for the JVM. What they log is not modelled.
pub mod Added
pub mod Debug
use jvm_vendors.Base.{
  ℕ, Bool, true, false, not, ◌&&◌, ◌||◌, Option, none, some, List, [], ◌∷◌, ◌++◌, map, String, ◌≡◌,
  refl, is_nil, ◌==◌, if◌then◌else◌,
}
use jvm_vendors.Base.Result.{Result, ok, err}
use jvm_vendors.Base.Text.{Text, codes, join, contains, has_prefix, text_eq}
use jvm_vendors.Base.Text.Decimal.{decimal}
use jvm_vendors.Base.Text.Split.{split}
use jvm_vendors.Base.FilePath.{join_path, dir_name}
use jvm_vendors.Helper.Env.{
  Env, Variables, HelperError, missing_variable, unparsable_options, cannot_make_directory,
  Shellwords, values, or_empty, Sherpa, java_tool_options,
}

abbrev pub Outcome : Type 0
Outcome = Result HelperError Variables

-- `strings.Join(values, " ")` as the options.
abbrev pub options : List Text → Outcome
options vs = ok ((java_tool_options, join vs (codes " ")) ∷ [])

add_java_opts : Env → Option Text → Outcome
add_java_opts env none = ok []
add_java_opts env (some jo) = options (values (env java_tool_options) ++ jo ∷ [])

-- `JavaOpts.Execute`
unfoldable pub java_opts : Env → Outcome
unfolding add_java_opts
java_opts env = add_java_opts env (env "JAVA_OPTS")

any : (Text → Bool) → List Text → Bool
any p [] = false
any p (w ∷ ws) = p w || any p ws

abbrev processor_count_flag : Text
processor_count_flag = codes "-XX:ActiveProcessorCount="

add_processor_count : ℕ → List Text → Option (List Text) → Outcome
add_processor_count cpus vs none = err unparsable_options
add_processor_count cpus vs (some words) =
    if any (λ w. has_prefix w processor_count_flag) words
    then ok []
    else options (vs ++ (processor_count_flag ++ decimal cpus) ∷ [])

-- `ActiveProcessorCount.Execute`; `cpus` is runtime.NumCPU().
unfoldable pub active_processor_count : Shellwords → ℕ → Env → Outcome
unfolding add_processor_count any
active_processor_count shellwords cpus env =
    add_processor_count cpus (values (env java_tool_options))
      (shellwords (or_empty (env java_tool_options)))

abbrev dump_on_error : Text
dump_on_error = codes "-XX:+HeapDumpOnOutOfMemoryError"

abbrev dump_path_flag : Text
dump_path_flag = codes "-XX:HeapDumpPath="

add_heap_dump : Text → List Text → Option (List Text) → Outcome
add_heap_dump path vs none = err unparsable_options
add_heap_dump path vs (some words) =
    let on_error = if any (λ w. text_eq w dump_on_error) words then [] else dump_on_error ∷ [] in
    let to_path =
      if any (λ w. has_prefix w dump_path_flag) words then [] else (dump_path_flag ++ path) ∷ [] in
    options (vs ++ (on_error ++ to_path))

make_heap_dump : Shellwords → (Text → Bool) → Text → Env → Option Text → Outcome
make_heap_dump shellwords mkdir now env none = ok []
make_heap_dump shellwords mkdir now env (some path) =
    if is_nil path
    then ok []
    else if mkdir path
    then add_heap_dump (join_path (path ∷ (codes "java_" ++ (now ++ codes ".hprof")) ∷ []))
        (values (env java_tool_options)) (shellwords (or_empty (env java_tool_options)))
    else err cannot_make_directory

-- `JVMHeapDump.Execute`; `mkdir` tells whether os.MkdirAll succeeds, `now` is the formatted time.
unfoldable pub jvm_heap_dump : Shellwords → (Text → Bool) → Text → Env → Outcome
unfolding make_heap_dump add_heap_dump any
jvm_heap_dump shellwords mkdir now env =
    make_heap_dump shellwords mkdir now env (env "BPL_HEAP_DUMP_PATH")

starts_with_1 : Text → Bool
starts_with_1 [] = false
starts_with_1 (c ∷ s) = c == b'1'

-- The file that says whether IPv6 is disabled: none if it cannot be opened, and else what is read of
-- it and whether the reading ends without an error. The first byte is taken without a test; the slice
-- of io.ReadAll has room behind its end, so the first byte of an empty file is zero.
unfoldable pub ipv6_enabled : Option (Text × Bool) → Bool
unfolding starts_with_1
ipv6_enabled none = false
ipv6_enabled (some (text, whole)) = whole && not (starts_with_1 text)

module _ (sherpa : Sherpa) where
  append_options : Env → List Text → Outcome
  append_options env vs =
      ok ((java_tool_options, sherpa.append_to_env_var env java_tool_options (codes " ") vs) ∷ [])

  jdwp_flag : Text → Bool → Text
  jdwp_flag address suspend =
      codes "-agentlib:jdwp=transport=dt_socket,server=y,address="
      ++ (address ++ (codes ",suspend=" ++ (if suspend then codes "y" else codes "n")))

  debug_configured : Env → Bool
  debug_configured env =
      contains (sherpa.get_env_with_default env java_tool_options []) (codes "-agentlib:jdwp=")

  -- `Debug8.Execute`
  unfoldable pub debug_8 : Env → Outcome
  unfolding append_options jdwp_flag debug_configured
  debug_8 env =
      if not (sherpa.resolve_bool env "BPL_DEBUG_ENABLED")
      then ok []
      else if debug_configured env
      then ok []
      else append_options env (
          jdwp_flag (sherpa.get_env_with_default env "BPL_DEBUG_PORT" (codes "8000"))
            (sherpa.resolve_bool env "BPL_DEBUG_SUSPEND")
          ∷ [])

  debug_at : Env → Bool → Outcome
  debug_at env ipv6 =
      let host = if ipv6 then codes "*" else codes "0.0.0.0" in
      let port = sherpa.get_env_with_default env "BPL_DEBUG_PORT" (codes "8000") in
      append_options env
        (jdwp_flag (host ++ (codes ":" ++ port)) (sherpa.resolve_bool env "BPL_DEBUG_SUSPEND") ∷ [])

  -- `Debug9.Execute`; the file at CustomIPv6CheckPath, or else at DefaultIPv6CheckPath, is given.
  unfoldable pub debug_9 : Env → Option (Text × Bool) → Outcome
  unfolding append_options jdwp_flag debug_configured debug_at
  debug_9 env ipv6_file =
      if not (sherpa.resolve_bool env "BPL_DEBUG_ENABLED")
      then ok []
      else if debug_configured env
      then ok []
      else debug_at env (ipv6_enabled ipv6_file)

  -- `JMX.Execute`
  unfoldable pub jmx : Env → Outcome
  unfolding append_options
  jmx env =
      if not (sherpa.resolve_bool env "BPL_JMX_ENABLED")
      then ok []
      else (let port = sherpa.get_env_with_default env "BPL_JMX_PORT" (codes "5000") in
          append_options env (
            codes "-Djava.rmi.server.hostname=127.0.0.1"
            ∷ codes "-Dcom.sun.management.jmxremote.authenticate=false"
            ∷ codes "-Dcom.sun.management.jmxremote.ssl=false"
            ∷ (codes "-Dcom.sun.management.jmxremote.port=" ++ port)
            ∷ (codes "-Dcom.sun.management.jmxremote.rmi.port=" ++ port)
            ∷ []))

  -- `JFR.Execute`; `temp` is os.TempDir().
  unfoldable pub jfr : Text → Env → Outcome
  unfolding append_options
  jfr temp env =
      if not (sherpa.resolve_bool env "BPL_JFR_ENABLED")
      then ok []
      else (let args = sherpa.get_env_with_default env "BPL_JFR_ARGS" [] in
          let arg_list =
            if is_nil args
            then codes "dumponexit=true,filename=" ++ join_path (temp ∷ codes "recording.jfr" ∷ [])
            else args in
          append_options env ((codes "-XX:StartFlightRecording=" ++ arg_list) ∷ []))

  -- `NMT.Execute`
  unfoldable pub nmt : Env → Outcome
  nmt env =
      if not (sherpa.resolve_bool_with_default env "BPL_JAVA_NMT_ENABLED" true)
      then ok []
      else (let level = sherpa.get_env_with_default env "BPL_JAVA_NMT_LEVEL" (codes "summary") in
          ok (
            ("NMT_LEVEL_1", level)
            ∷ (
              java_tool_options,
              sherpa.append_to_env_var env java_tool_options (codes " ") (
                  (codes "-XX:+UnlockDiagnosticVMOptions -XX:NativeMemoryTracking="
                    ++ (level ++ codes " -XX:+PrintNMTStatistics"))
                  ∷ []),
            )
            ∷ []))

add_ext_dirs : Env → Text → Option Text → Outcome
add_ext_dirs env p none = err (missing_variable "BPI_JVM_EXT_DIR")
add_ext_dirs env p (some e) = options (
    values (env java_tool_options)
    ++ (codes "-Djava.ext.dirs=" ++ join (e ∷ map dir_name (split b':' p)) (codes ":")) ∷ [])

-- `SecurityProvidersClasspath8.Execute`
unfoldable pub security_providers_classpath_8 : Env → Outcome
unfolding add_ext_dirs
security_providers_classpath_8 env = elim (env "SECURITY_PROVIDERS_CLASSPATH") [
  | none ↦ ok []
  | some p ↦ add_ext_dirs env p (env "BPI_JVM_EXT_DIR")
]

-- `SecurityProvidersClasspath9.Execute`
unfoldable pub security_providers_classpath_9 : Env → Outcome
security_providers_classpath_9 env = elim (env "SECURITY_PROVIDERS_CLASSPATH") [
  | none ↦ ok []
  | some p ↦ ok (("CLASSPATH", join (values (env "CLASSPATH") ++ p ∷ []) (codes ":")) ∷ [])
]
