-- ===== src/Helper/TrustStore/Given.antt =====
-- What the helper makes of the key store that it is given.
use jvm_vendors.Base.{
  ◌≡◌, refl, ap, ◌⊎◌, inl, inr, Bool, true, false, Option, none, some, [], if◌then◌else◌,
}
use jvm_vendors.Base.Result.{Result, ok}
use jvm_vendors.Base.Text.{Text}
use jvm_vendors.Helper.Env.{Env, Variables, HelperError, Sherpa}
use jvm_vendors.Java.Keystore.{Bytes, KeystoreFile, Jks, Pkcs12}
use jvm_vendors.Java.Certificates.{FileSystem, Decode, CertificateLoader, LoadError, load}
use jvm_vendors.Java.Certificates.Unchanged.{IsLate, load-unchanged}
use jvm_vendors.Helper.TrustStore.{
  Stores, CopyFile, Loader, loaded, load_given, load_temporary, after_copy, copy_and_load,
  with_cacerts, execute,
}

module _ (sherpa : Sherpa) (loader : Loader) (copy : CopyFile) (env : Env) (tmp : Text)
    (s : Stores) where
  after_copy-given :
      (r : KeystoreFile × Bool) → (after_copy sherpa loader env tmp s r).0.given ≡ s.given
  unfolding after_copy load_temporary
  after_copy-given (file, false) = refl
  after_copy-given (file, true) = refl

  copy_and_load-given :
      (o : Option Bytes) → (copy_and_load sherpa loader copy env tmp s o).0.given ≡ s.given
  unfolding copy_and_load
  copy_and_load-given none = refl
  copy_and_load-given (some b) = after_copy-given (copy b s.temporary)

-- When the given store may change: the process may write it, and the helper succeeds without a
-- variable to set, or the load failed in the encoding or the writing of the new store.
pub MayChangeGiven : KeystoreFile → Option LoadError → Result HelperError Variables → Type 0
MayChangeGiven given e outcome =
    (given.writable ≡ true)
    × (((e ≡ none) × (outcome ≡ ok [])) ⊎ ((x : LoadError) × (e ≡ some x) × IsLate x))

module _ {S C : Type 0} (jks : Jks S) (p : Pkcs12 C) (fs : FileSystem) (decode : Decode)
    (l : CertificateLoader) (sherpa : Sherpa) (copy : CopyFile) (env : Env) (tmp : Text)
    (s : Stores) where
  abbrev loader : Loader
  loader = load jks p fs decode l

  abbrev Guarded : Stores × Result HelperError Variables → Type 0
  Guarded (s', outcome) = (s'.given ≡ s.given) ⊎ MayChangeGiven s.given (loader s.given).1 outcome

  load_given-Guarded : Guarded (load_given s (loader s.given))
  unfolding load_given loaded MayChangeGiven
  load_given-Guarded =
      elim (load-unchanged jks p fs decode l s.given {file' = (loader s.given).0}
        {outcome = (loader s.given).1} refl) [
          | inr same ↦ inl same
          | inl (w, inl e) ↦ inr (w, inl (e, ap (loaded []) e))
          | inl (w, inr (x, e, late)) ↦ inr (w, inr (x, e, late))
        ]

  branch-Guarded :
      (w : Bool)
      → Guarded (
          if w
          then load_given s (loader s.given)
          else copy_and_load sherpa loader copy env tmp s s.given.contents)
  branch-Guarded true = load_given-Guarded
  branch-Guarded false = inl (copy_and_load-given sherpa loader copy env tmp s s.given.contents)

  with_cacerts-Guarded : (o : Option Text) → Guarded (with_cacerts sherpa loader copy env tmp s o)
  unfolding with_cacerts
  with_cacerts-Guarded none = inl refl
  with_cacerts-Guarded (some path) = branch-Guarded s.given.writable

  -- The helper leaves the key store that it is given as it is, unless the process may write it and
  -- either the load succeeds, with no variable to set, or it fails in the encoding or the writing of
  -- the new store.
  pub execute-given :
      ((execute sherpa loader copy env tmp s).0.given ≡ s.given)
      ⊎ MayChangeGiven s.given (loader s.given).1 (execute sherpa loader copy env tmp s).1
  unfolding execute
  execute-given = with_cacerts-Guarded (env "BPI_JVM_CACERTS")
