-- ===== src/Java/Keystore/Detection.antt =====
-- Which key store is detected.
use jvm_vendors.Base.{
  ◌≡◌, refl, sym, ap, ◌∙◌, Bool, false, Option, none, some, List, [], map, if◌then◌else◌, is_nil,
}
use jvm_vendors.Base.Result.{Result, ok, ◌>>=◌, >>=-eq-ok, if-eq-ok, ok-injective}
use jvm_vendors.Java.Keystore.{
  Bytes, KeystoreFile, KeystoreError, Jks, Pkcs12, Detected, found_pkcs12, found_jks,
  PasswordlessKeystore, new_passwordless_keystore, decoded_pkcs12, detect_bytes, detect_keystore,
  is_jks, empty_keystore, subject_entry, read_bytes, new_jks_keystore,
}
use jvm_vendors.Base.Text.{codes}

module _ {S C : Type 0} (jks : Jks S) (p : Pkcs12 C) where
  decoded_pkcs12-eq-ok :
      (o : Option (List C)) {k : PasswordlessKeystore C}
      → decoded_pkcs12 p o ≡ ok k
      → (old : List C) × (o ≡ some old) × (k ≡ record { entries = map (subject_entry p) old })
  unfolding decoded_pkcs12
  decoded_pkcs12-eq-ok none h = cc
  decoded_pkcs12-eq-ok (some old) h = (old, refl, sym (ok-injective h))

  by_magic : Bytes → Bool → Result KeystoreError (Detected S C)
  by_magic b m =
      if m
      then new_jks_keystore jks b (codes "changeit") >>= (λ k. ok (found_jks k))
      else new_passwordless_keystore p b >>= (λ k. ok (found_pkcs12 k))

  detect_bytes-eq-ok :
      (b : Bytes) {d : Detected S C}
      → is_jks b ≡ false
      → detect_bytes jks p b ≡ ok d
      → (old : List C) × (p.decode_trust_store b [] ≡ some old)
        × (d ≡ found_pkcs12 (record { entries = map (subject_entry p) old }))
  unfolding detect_bytes by_magic new_passwordless_keystore
  detect_bytes-eq-ok b m h =
      let (filled, h1) = if-eq-ok (is_nil b) empty_keystore (by_magic b (is_jks b)) h in
      let (k, h2, h3) =
        >>=-eq-ok (new_passwordless_keystore p b) (λ k. ok (found_pkcs12 k))
          (sym (ap (by_magic b) m) ∙ h1) in
      let (old, h4, h5) = decoded_pkcs12-eq-ok (p.decode_trust_store b []) h2 in
      (old, h4, sym (ok-injective h3) ∙ ap found_pkcs12 h5)

  -- A file without the magic number has a store without a password, with the names of the subjects.
  pub detect_keystore-eq-ok :
      (file : KeystoreFile) (b : Bytes) {d : Detected S C}
      → file.contents ≡ some b
      → is_jks b ≡ false
      → detect_keystore jks p file ≡ ok d
      → (old : List C) × (p.decode_trust_store b [] ≡ some old)
        × (d ≡ found_pkcs12 (record { entries = map (subject_entry p) old }))
  unfolding detect_keystore read_bytes
  detect_keystore-eq-ok file b c m h = detect_bytes-eq-ok b m (sym (ap (read_bytes jks p) c) ∙ h)
