-- ===== src/Helper/Options/Debug.antt =====
-- When the two debug helpers add a debug agent to the options, and which; they do so once.
use Prim.Native.Nat.{Ordering}
use Prim.Native.String
use mathlib.Core.List.{append_assoc}
use jvm_vendors.Base.{
  ℕ, ◌≡◌, refl, sym, ap, ◌∙◌, subst, Bool, true, false, Option, none, some, [], ◌∷◌, ◌++◌, inl, inr,
  Bool-cases, ◌==◌, if◌then◌else◌,
}
use jvm_vendors.Base.Result.{ok}
use jvm_vendors.Base.Text.{Text, codes, join, contains, contains-append}
use jvm_vendors.Helper.Env.{
  Env, Variables, values, or_empty, Sherpa, IsDocumented, is_on, java_tool_options,
}
use jvm_vendors.Helper.Options.{
  debug_8, debug_9, debug_at, debug_configured, append_options, jdwp_flag, ipv6_enabled,
  starts_with_1,
}

-- The environment behind a helper that sets these variables.
abbrev pub with_variables : Variables → Env → Env
with_variables [] env k = env k
with_variables ((k', v) ∷ vs) env k = elim (String.compare k k') [
  | Ordering.eq ↦ some v
  | _ ↦ with_variables vs env k
]

abbrev pub agent_prefix : Text
agent_prefix = codes "-agentlib:jdwp="

-- The debug agent at an address.
abbrev pub agent : Text → Bool → Text
agent address suspend =
    agent_prefix
    ++ (codes "transport=dt_socket,server=y,address="
        ++ (address ++ (if suspend then codes ",suspend=y" else codes ",suspend=n")))

-- The port of the agent: BPL_DEBUG_PORT, or 8000.
pub data IsPort (env : Env) : Text → Type 0 where
  port_set : (port : Text) → env "BPL_DEBUG_PORT" ≡ some port → IsPort env port
  port_default : env "BPL_DEBUG_PORT" ≡ none → IsPort env (codes "8000")

-- What stands before the port from Java 9 on, by what is read of the file that says whether IPv6 is
-- disabled, and whether it is read without an error.
pub data IsHost : Option (Text × Bool) → Text → Type 0 where
  no_file : IsHost none (codes "0.0.0.0:")
  unread : (t : Text) → IsHost (some (t, false)) (codes "0.0.0.0:")
  ipv6_off : (t : Text) → IsHost (some (b'1' ∷ t, true)) (codes "0.0.0.0:")
  ipv6_on : (c : ℕ) (t : Text) → (c == b'1') ≡ false → IsHost (some (c ∷ t, true)) (codes "*:")
  ipv6_empty : IsHost (some ([], true)) (codes "*:")

-- What a debug helper does: nothing if debugging is off, or if the options have an agent already;
-- else it adds the agent behind the options.
pub data Debugs (env : Env) (host : Text) : Variables → Type 0 where
  off : is_on env "BPL_DEBUG_ENABLED" ≡ false → Debugs env host []
  has_agent : contains (or_empty (env java_tool_options)) agent_prefix ≡ true → Debugs env host []
  adds :
      (port : Text)
      → is_on env "BPL_DEBUG_ENABLED" ≡ true
      → contains (or_empty (env java_tool_options)) agent_prefix ≡ false
      → IsPort env port
      → Debugs env host (
          (
            java_tool_options,
            join
                (values (env java_tool_options)
                  ++ agent (host ++ port) (is_on env "BPL_DEBUG_SUSPEND") ∷ [])
                (codes " "),
          )
          ∷ [])

agent-joined :
    (o : Option Text) (rest : Text)
    → contains (join (values o ++ (agent_prefix ++ rest) ∷ []) (codes " ")) agent_prefix ≡ true
unfolding join
agent-joined none rest = contains-append [] agent_prefix rest
agent-joined (some old) rest =
    subst (λ t. contains t agent_prefix ≡ true)
      (append_assoc old (codes " ") (agent_prefix ++ rest))
      (contains-append (old ++ codes " ") agent_prefix rest)

module _ (s : Sherpa) (documented : IsDocumented s) where
  options-or_empty :
      (env : Env) (o : Option Text)
      → env java_tool_options ≡ o
      → s.get_env_with_default env java_tool_options [] ≡ or_empty o
  options-or_empty env none e = documented.default_value env java_tool_options [] e
  options-or_empty env (some v) e = documented.set_value env java_tool_options [] v e

  debug_configured-contains :
      (env : Env)
      → debug_configured s env ≡ contains (or_empty (env java_tool_options)) agent_prefix
  unfolding debug_configured
  debug_configured-contains env = ap (λ t. contains t agent_prefix) (options-or_empty env _ refl)

  get_env_with_default-IsPort :
      (env : Env) (o : Option Text)
      → env "BPL_DEBUG_PORT" ≡ o
      → IsPort env (s.get_env_with_default env "BPL_DEBUG_PORT" (codes "8000"))
  get_env_with_default-IsPort env none e =
      subst (IsPort env) (sym (documented.default_value env "BPL_DEBUG_PORT" (codes "8000") e))
        (port_default e)
  get_env_with_default-IsPort env (some port) e =
      subst (IsPort env) (sym (documented.set_value env "BPL_DEBUG_PORT" (codes "8000") port e))
        (port_set port e)

  -- The variables of an agent at a host, and its port.
  abbrev port_of : Env → Text
  port_of env = s.get_env_with_default env "BPL_DEBUG_PORT" (codes "8000")

  abbrev agent_set : Env → Text → Text
  agent_set env host =
      s.append_to_env_var env java_tool_options (codes " ")
        (agent (host ++ port_of env) (s.resolve_bool env "BPL_DEBUG_SUSPEND") ∷ [])

  -- What the helpers do when debugging is on and there is no agent.
  agent_set-adds :
      (env : Env) (host : Text)
      → s.resolve_bool env "BPL_DEBUG_ENABLED" ≡ true
      → debug_configured s env ≡ false
      → Debugs env host ((java_tool_options, agent_set env host) ∷ [])
  agent_set-adds env host on free =
      subst (λ t. Debugs env host ((java_tool_options, t) ∷ []))
        (ap
            (λ b.
              join (values (env java_tool_options) ++ agent (host ++ port_of env) b ∷ [])
                (codes " "))
            (sym (documented.bool_value env "BPL_DEBUG_SUSPEND"))
          ∙ sym (documented.appended env java_tool_options (codes " ") _))
        (adds (port_of env) (sym (documented.bool_value env "BPL_DEBUG_ENABLED") ∙ on)
          (sym (debug_configured-contains env) ∙ free) (get_env_with_default-IsPort env _ refl))

  -- Behind it there is an agent.
  agent_set-configured :
      (env : Env) (host : Text)
      → debug_configured s (with_variables ((java_tool_options, agent_set env host) ∷ []) env)
        ≡ true
  agent_set-configured env host =
      debug_configured-contains (with_variables ((java_tool_options, agent_set env host) ∷ []) env)
      ∙ rw (documented.appended env java_tool_options (codes " ") _)
          (agent-joined (env java_tool_options) _)

  jdwp_flag-agent :
      (address : Text) (suspend : Bool) → jdwp_flag s address suspend ≡ agent address suspend
  unfolding jdwp_flag
  jdwp_flag-agent address true = refl
  jdwp_flag-agent address false = refl

  debug_8-configured : (env : Env) → debug_configured s env ≡ true → debug_8 s env ≡ ok []
  unfolding debug_8
  debug_8-configured env e = elim (Bool-cases (s.resolve_bool env "BPL_DEBUG_ENABLED")) [
    | inl on ↦ rw (on, e)
    | inr disabled ↦ rw disabled
  ]

  debug_9-configured :
      (env : Env) (file : Option (Text × Bool))
      → debug_configured s env ≡ true
      → debug_9 s env file ≡ ok []
  unfolding debug_9
  debug_9-configured env file e = elim (Bool-cases (s.resolve_bool env "BPL_DEBUG_ENABLED")) [
    | inl on ↦ rw (on, e)
    | inr disabled ↦ rw disabled
  ]

  off-Debugs :
      (env : Env) (host : Text)
      → s.resolve_bool env "BPL_DEBUG_ENABLED" ≡ false
      → Debugs env host []
  off-Debugs env host e = off (sym (documented.bool_value env "BPL_DEBUG_ENABLED") ∙ e)

  configured-Debugs : (env : Env) (host : Text) → debug_configured s env ≡ true → Debugs env host []
  configured-Debugs env host e = has_agent (sym (debug_configured-contains env) ∙ e)

  debug_8-Debugs :
      (env : Env)
      → (vs : Variables) × (debug_8 s env ≡ ok vs)
        × Debugs env [] vs
        × (debug_8 s (with_variables vs env) ≡ ok [])
  unfolding debug_8 append_options
  debug_8-Debugs env = elim (Bool-cases (s.resolve_bool env "BPL_DEBUG_ENABLED")) [
    | inr disabled ↦ ([], rw disabled refl, off-Debugs env [] disabled, rw disabled refl)
    | inl on ↦ elim (Bool-cases (debug_configured s env)) [
      | inl e ↦ ([], debug_8-configured env e, configured-Debugs env [] e, debug_8-configured env e)
      | inr free ↦ (
        (java_tool_options, agent_set env []) ∷ [],
        rw (on, free, jdwp_flag-agent (port_of env) (s.resolve_bool env "BPL_DEBUG_SUSPEND")) refl,
        agent_set-adds env [] on free,
        debug_8-configured _ (agent_set-configured env []),
      )
    ]
  ]

  without_ipv6 :
      (env : Env)
      → debug_at s env false ≡ ok ((java_tool_options, agent_set env (codes "0.0.0.0:")) ∷ [])
  unfolding debug_at append_options
  without_ipv6 env =
      rw
        (jdwp_flag-agent (codes "0.0.0.0:" ++ port_of env) (s.resolve_bool env "BPL_DEBUG_SUSPEND"))
        refl

  with_ipv6 :
      (env : Env) → debug_at s env true ≡ ok ((java_tool_options, agent_set env (codes "*:")) ∷ [])
  unfolding debug_at append_options
  with_ipv6 env =
      rw (jdwp_flag-agent (codes "*:" ++ port_of env) (s.resolve_bool env "BPL_DEBUG_SUSPEND")) refl

  debug_at-host :
      (env : Env) (file : Option (Text × Bool)) (host : Text)
      → IsHost file host
      → debug_at s env (ipv6_enabled file) ≡ ok ((java_tool_options, agent_set env host) ∷ [])
  unfolding ipv6_enabled starts_with_1
  debug_at-host env _ _ no_file = without_ipv6 env
  debug_at-host env _ _ (unread t) = without_ipv6 env
  debug_at-host env _ _ (ipv6_off t) = without_ipv6 env
  debug_at-host env _ _ (ipv6_on c t e) = rw e (with_ipv6 env)
  debug_at-host env _ _ ipv6_empty = with_ipv6 env

  debug_9-Debugs :
      (env : Env) (file : Option (Text × Bool)) (host : Text)
      → IsHost file host
      → (vs : Variables) × (debug_9 s env file ≡ ok vs)
        × Debugs env host vs
        × (debug_9 s (with_variables vs env) file ≡ ok [])
  unfolding debug_9
  debug_9-Debugs env file host h = elim (Bool-cases (s.resolve_bool env "BPL_DEBUG_ENABLED")) [
    | inr disabled ↦ ([], rw disabled refl, off-Debugs env host disabled, rw disabled refl)
    | inl on ↦ elim (Bool-cases (debug_configured s env)) [
      | inl e ↦ (
        [],
        debug_9-configured env file e,
        configured-Debugs env host e,
        debug_9-configured env file e,
      )
      | inr free ↦ (
        (java_tool_options, agent_set env host) ∷ [],
        rw (on, free) (debug_at-host env file host h),
        agent_set-adds env host on free,
        debug_9-configured _ file (agent_set-configured env host),
      )
    ]
  ]

  -- With sherpa as documented, Debug8 and Debug9 do nothing if BPL_DEBUG_ENABLED is not set to a text
  -- for true, or if the options have a debug agent; else they add one behind the options, at the port of
  -- BPL_DEBUG_PORT or else 8000, suspended exactly if BPL_DEBUG_SUSPEND is set to a text for true. The
  -- address of Debug9 has a host in front: 0.0.0.0 if the file for IPv6 cannot be read or begins with 1,
  -- and else any. In the environment that it leaves each does nothing again.
  pub debug_helpers-Debugs :
      (env : Env) (file : Option (Text × Bool)) (host : Text)
      → IsHost file host
      → ((vs : Variables) × (debug_8 s env ≡ ok vs)
          × Debugs env [] vs
          × (debug_8 s (with_variables vs env) ≡ ok []))
        × ((vs : Variables) × (debug_9 s env file ≡ ok vs)
            × Debugs env host vs
            × (debug_9 s (with_variables vs env) file ≡ ok []))
  debug_helpers-Debugs env file host h = (debug_8-Debugs env, debug_9-Debugs env file host h)
