-- ===== src/Helper/Dns.antt =====
-- helper/link_local_dns.go: with a link-local name server, the JVM is told not to cache names.
pub mod Faults
use jvm_vendors.Base.{Bool, true, false, not, Option, none, some, List, [], ◌∷◌, if◌then◌else◌}
use jvm_vendors.Base.Result.{Result, ok, err}
use jvm_vendors.Base.Text.{Text, codes}
use jvm_vendors.Helper.Env.{
  Env, Variables, HelperError, missing_variable, cannot_open, cannot_write,
}

-- A file at a path: whether the process may write it, whether it opens for appending, and what it
-- holds after a text is appended, and whether that succeeded.
pub record Appendable : Type 0 where
  pub writable : Bool
  pub opens : Bool
  pub append : Text → Text × Bool

abbrev pub no_caching : Text
no_caching = codes "\nnetworkaddress.cache.ttl=0\nnetworkaddress.cache.negative.ttl=0\n"

-- The outcome, and what the file then holds if it was written.
abbrev pub Outcome : Type 0
Outcome = Result HelperError Variables × Option Text

appended : Text × Bool → Outcome
appended (held, true) = (ok [], some held)
appended (held, false) = (err cannot_write, some held)

append_no_caching : Appendable → Outcome
unfolding appended
append_no_caching file =
    if not file.writable
    then (ok [], none)
    else if not file.opens
    then (err cannot_open, none)
    else appended (file.append no_caching)

in_properties : (Text → Appendable) → Option Text → Outcome
unfolding append_no_caching
in_properties files none = (err (missing_variable "JAVA_SECURITY_PROPERTIES"), none)
in_properties files (some path) = append_no_caching (files path)

-- `Execute`, with the servers of the configuration; whether a text is a link-local address is given.
unfoldable pub execute : (Text → Bool) → (Text → Appendable) → Env → List Text → Outcome
unfolding in_properties
execute is_link_local files env [] = (ok [], none)
execute is_link_local files env (server ∷ servers) =
    if is_link_local server
    then in_properties files (env "JAVA_SECURITY_PROPERTIES")
    else (ok [], none)
