-- ===== src/Helper/TrustStore/Faults.antt =====
-- The certificate loader of the helper does not lack the variable of the key store if it is set.
use jvm_vendors.Base.{◌≡◌, Bool, true, false, Option, none, some, [], if-both}
use jvm_vendors.Base.Result.{Result, FailsWith}
use jvm_vendors.Base.Text.{Text}
use jvm_vendors.Helper.Env.{Env, Variables, HelperError, Sherpa, NamesNone}
use jvm_vendors.Java.Keystore.{Bytes, KeystoreFile}
use jvm_vendors.Java.Certificates.{LoadError}
use jvm_vendors.Helper.TrustStore.{
  Stores, Loader, CopyFile, loaded, load_given, load_temporary, after_copy, copy_and_load,
  with_cacerts, execute,
}

abbrev Outcome : Type 0
Outcome = Stores × Result HelperError Variables

loaded-NamesNone : (vs : Variables) (e : Option LoadError) → FailsWith NamesNone (loaded vs e)
unfolding loaded
loaded-NamesNone vs none = tt
loaded-NamesNone vs (some e) = λ k h. cc

abbrev HasNone : Outcome → Type 0
HasNone x = FailsWith NamesNone x.1

load_given-NamesNone :
    (s : Stores) (r : KeystoreFile × Option LoadError) → FailsWith NamesNone (load_given s r).1
unfolding load_given
load_given-NamesNone s (file, e) = loaded-NamesNone [] e

load_temporary-NamesNone :
    (vs : Variables) (s : Stores) (r : KeystoreFile × Option LoadError)
    → FailsWith NamesNone (load_temporary vs s r).1
unfolding load_temporary
load_temporary-NamesNone vs s (file, e) = loaded-NamesNone vs e

module _ (sherpa : Sherpa) (load : Loader) (copy : CopyFile) (env : Env) (tmp : Text) where
  after_copy-NamesNone :
      (s : Stores) (r : KeystoreFile × Bool)
      → FailsWith NamesNone (after_copy sherpa load env tmp s r).1
  unfolding after_copy
  after_copy-NamesNone s (copied, false) = tt
  after_copy-NamesNone s (copied, true) = load_temporary-NamesNone _ s (load copied)

  copy_and_load-NamesNone :
      (s : Stores) (o : Option Bytes)
      → FailsWith NamesNone (copy_and_load sherpa load copy env tmp s o).1
  unfolding copy_and_load
  copy_and_load-NamesNone s none = tt
  copy_and_load-NamesNone s (some b) = after_copy-NamesNone s (copy b s.temporary)

  pub execute-NamesNone :
      (s : Stores) (path : Text)
      → env "BPI_JVM_CACERTS" ≡ some path
      → FailsWith NamesNone (execute sherpa load copy env tmp s).1
  unfolding execute with_cacerts
  execute-NamesNone s path set =
      rw (set, FailsWith)
        (if-both HasNone s.given.writable _ _ (load_given-NamesNone s (load s.given))
          (copy_and_load-NamesNone s s.given.contents))
