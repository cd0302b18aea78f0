-- ===== src/Java/Certificates/Unchanged.antt =====
-- When Load leaves the file of a key store as it is.
use jvm_vendors.Base.{
  ◌≡◌, refl, sym, ap, ◌∙◌, Bool, true, false, Option, none, some, [], ◌⊎◌, inl, inr, Bool-cases,
}
use jvm_vendors.Base.Result.{Result, ok, err, ◌>>=◌}
use jvm_vendors.Java.Keystore.{
  Bytes, KeystoreError, KeystoreFile, Keystore, Jks, Pkcs12, detect_keystore, Detected, found_jks,
  found_pkcs12, jks_operations, pkcs12_operations, write_file, encoding, write_pkcs12, write_jks,
}
use jvm_vendors.Java.Keystore.Written.{IsDestructive, write_file-eq-some, write_file-unwritable}
use jvm_vendors.Java.Certificates.{
  FileSystem, Decode, CertificateLoader, LoadError, cannot_write, cert_files, add_files, then_write,
  write_outcome, load_into, load_detected, load,
}

-- An error of a load that may have changed the file.
pub IsLate : LoadError → Type 0
IsLate e = (w : KeystoreError) × (e ≡ cannot_write w) × IsDestructive w

module _ {K : Type 0} (keystore : Keystore K) where
  -- The writes of the key store, in the file that it is given.
  abbrev IsGuarded : Type 0
  IsGuarded =
      (k : K) (file : KeystoreFile)
      → (encoded : Bytes × Bool) × (keystore.write k file ≡ write_file file encoded)

  module _ (guarded : IsGuarded) (file : KeystoreFile) where
    write_outcome-eq-some :
        (r : KeystoreFile × Option KeystoreError) {file' : KeystoreFile} {e : LoadError}
        → write_outcome keystore r ≡ (file', some e)
        → (w : KeystoreError) × (e ≡ cannot_write w) × (r ≡ (file', some w))
    unfolding write_outcome
    write_outcome-eq-some (f, none) h = cc
    write_outcome-eq-some (f, some w) h = (w, cc, cc)

    then_write-eq-some :
        (r : Result LoadError K) (file' : KeystoreFile) (e : LoadError)
        → then_write keystore r file ≡ (file', some e)
        → IsLate e ⊎ (file' ≡ file)
    unfolding then_write IsLate
    then_write-eq-some (err x) file' e h = inr cc
    then_write-eq-some (ok k) file' e h =
        let (w, he, hw) = write_outcome-eq-some (keystore.write k file) h in
        let (encoded, g) = guarded k file in
        elim (write_file-eq-some file file' encoded (sym g ∙ hw)) [
          | inl d ↦ inl (w, he, d)
          | inr same ↦ inr same
        ]

    then_write-unwritable :
        file.writable ≡ false → (r : Result LoadError K) → (then_write keystore r file).0 ≡ file
    unfolding then_write write_outcome
    then_write-unwritable u (err x) = refl
    then_write-unwritable u (ok k) =
        let (encoded, g) = guarded k file in
        ap (λ r. (write_outcome keystore r).0) (g ∙ write_file-unwritable file encoded u)

jks_operations-IsGuarded : {S : Type 0} (jks : Jks S) → IsGuarded (jks_operations jks)
unfolding write_jks
jks_operations-IsGuarded jks k file = (jks.store k.store k.password, refl)

pkcs12_operations-IsGuarded : {C : Type 0} (p : Pkcs12 C) → IsGuarded (pkcs12_operations p)
unfolding write_pkcs12
pkcs12_operations-IsGuarded p k file = (encoding (p.encode_trust_store_entries k.entries []), refl)

module _ {S C : Type 0} (jks : Jks S) (p : Pkcs12 C) where
  module _ (fs : FileSystem) (decode : Decode) (l : CertificateLoader) (file : KeystoreFile) where
    abbrev Unchanged : Result KeystoreError (Detected S C) → Type 0
    Unchanged d =
        (file.writable ≡ false → (load_detected jks p fs decode l d file).0 ≡ file)
        × ((file' : KeystoreFile) (e : LoadError)
            → load_detected jks p fs decode l d file ≡ (file', some e)
            → IsLate e ⊎ (file' ≡ file))

    load_detected-Unchanged : (d : Result KeystoreError (Detected S C)) → Unchanged d
    unfolding load_detected load_into
    load_detected-Unchanged (err x) = (λ u. refl, λ file' e h. inr cc)
    load_detected-Unchanged (ok (found_jks k)) =
        let r = cert_files fs l >>= (λ files. add_files (jks_operations jks) fs decode k files) in
        let g = jks_operations-IsGuarded jks in
        (
          λ u. then_write-unwritable (jks_operations jks) g file u r,
          then_write-eq-some (jks_operations jks) g file r,
        )
    load_detected-Unchanged (ok (found_pkcs12 k)) =
        let r = cert_files fs l >>= (λ files. add_files (pkcs12_operations p) fs decode k files) in
        let g = pkcs12_operations-IsGuarded p in
        (
          λ u. then_write-unwritable (pkcs12_operations p) g file u r,
          then_write-eq-some (pkcs12_operations p) g file r,
        )

    abbrev pub MayChange : Option LoadError → Type 0
    MayChange outcome =
        (file.writable ≡ true)
        × ((outcome ≡ none) ⊎ ((e : LoadError) × (outcome ≡ some e) × IsLate e))

    by_outcome :
        {file' : KeystoreFile} (outcome : Option LoadError)
        → load jks p fs decode l file ≡ (file', outcome)
        → file.writable ≡ true
        → MayChange outcome ⊎ (file' ≡ file)
    unfolding load
    by_outcome none h w = inl (w, inl refl)
    by_outcome {file'} (some e) h w =
        elim ((load_detected-Unchanged (detect_keystore jks p file)).1 file' e h) [
          | inl late ↦ inl (w, inr (e, refl, late))
          | inr same ↦ inr same
        ]

    -- A load changes the file only if the process may write it, and then only if it succeeds or
    -- fails in the encoding or the writing of the new store. After any other error, the file is as
    -- it was.
    pub load-unchanged :
        {file' : KeystoreFile} {outcome : Option LoadError}
        → load jks p fs decode l file ≡ (file', outcome)
        → MayChange outcome ⊎ (file' ≡ file)
    unfolding load
    load-unchanged {file'} {outcome} h = elim (Bool-cases file.writable) [
      | inl w ↦ by_outcome outcome h w
      | inr u ↦
          let same = (load_detected-Unchanged (detect_keystore jks p file)).0 u in
          inr (sym (ap (λ r. r.0) h) ∙ same)
    ]
