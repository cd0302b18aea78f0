-- ===== src/Helper/Dns/Faults.antt =====
-- The helper for link-local name servers does not lack the variable of the properties if it is set.
use jvm_vendors.Base.{◌≡◌, Bool, true, false, not, none, some, List, [], ◌∷◌, if-both}
use jvm_vendors.Base.Result.{ok, err, FailsWith}
use jvm_vendors.Base.Text.{Text}
use jvm_vendors.Helper.Env.{Env, cannot_open, NamesNone}
use jvm_vendors.Helper.Dns.{
  Appendable, Outcome, no_caching, appended, append_no_caching, in_properties, execute,
}

abbrev HasNone : Outcome → Type 0
HasNone x = FailsWith NamesNone x.0

appended-NamesNone : (r : Text × Bool) → FailsWith NamesNone (appended r).0
unfolding appended
appended-NamesNone (held, true) = tt
appended-NamesNone (held, false) = λ k h. cc

append_no_caching-NamesNone : (file : Appendable) → FailsWith NamesNone (append_no_caching file).0
unfolding append_no_caching
append_no_caching-NamesNone file =
    if-both HasNone (not file.writable) (ok [], none) _ (tt)
      (if-both HasNone (not file.opens) (err cannot_open, none) _ (λ k h. cc)
        (appended-NamesNone (file.append no_caching)))

module _ (is_link_local : Text → Bool) (files : Text → Appendable) (env : Env) where
  pub execute-NamesNone :
      (servers : List Text) (path : Text)
      → env "JAVA_SECURITY_PROPERTIES" ≡ some path
      → FailsWith NamesNone (execute is_link_local files env servers).0
  unfolding execute in_properties
  execute-NamesNone [] path set = tt
  execute-NamesNone (server ∷ servers) path set =
      rw (set, FailsWith)
        (if-both HasNone (is_link_local server) _ (ok [], none)
          (append_no_caching-NamesNone (files path)) (tt))
