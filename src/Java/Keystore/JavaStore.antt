-- ===== src/Java/Keystore/JavaStore.antt =====
-- The key store in the format of Java: its detection, and the entries that are added.
use jvm_vendors.Base.{
  ◌≡◌, refl, sym, ap, ◌∙◌, Bool, true, Option, none, some, if◌then◌else◌, is_nil,
}
use jvm_vendors.Base.Result.{Result, ok, ◌>>=◌, >>=-eq-ok, if-eq-ok, ok-injective}
use jvm_vendors.Base.Text.{Text, codes}
use jvm_vendors.Java.Keystore.{
  Bytes, Block, KeystoreFile, KeystoreError, Jks, Pkcs12, JksKeystore, TrustedCertificateEntry,
  normalized_date_time, add_jks, added_jks, new_jks_keystore, decoded_jks, Detected, found_jks,
  found_pkcs12, new_passwordless_keystore, detect_bytes, detect_keystore, read_bytes, is_jks,
  empty_keystore,
}

-- The password that is assumed.
abbrev pub changeit : Text
changeit = codes "changeit"

-- The entry of a block: with the same time for all, so that the bytes do not depend on the start.
abbrev pub trusted : Block → TrustedCertificateEntry
trusted b = record {
  creation_time = normalized_date_time;
  certificate_type = codes "X.509";
  content = b.bytes;
}

module _ {S : Type 0} (jks : Jks S) where
  added_jks-eq-ok :
      (k k' : JksKeystore S) (o : Option S)
      → added_jks jks k o ≡ ok k'
      → (s : S) × (o ≡ some s) × (k' ≡ record k { store = s })
  unfolding added_jks
  added_jks-eq-ok k k' none h = cc
  added_jks-eq-ok k k' (some s) h = (s, refl, sym (ok-injective h))

  pub add_jks-eq-ok :
      (k k' : JksKeystore S) (name : Text) (b : Block)
      → add_jks jks k name b ≡ ok k'
      → (s : S) × (jks.set_trusted_certificate_entry k.store name (trusted b) ≡ some s)
        × (k' ≡ record k { store = s })
  unfolding add_jks
  add_jks-eq-ok k k' name b h =
      added_jks-eq-ok k k' (jks.set_trusted_certificate_entry k.store name (trusted b)) h

  decoded_jks-eq-ok :
      (o : Option S) {k : JksKeystore S}
      → decoded_jks jks changeit o ≡ ok k
      → (s : S) × (o ≡ some s) × (k ≡ record { password = changeit; store = s })
  unfolding decoded_jks
  decoded_jks-eq-ok none h = cc
  decoded_jks-eq-ok (some s) h = (s, refl, sym (ok-injective h))

  module _ {C : Type 0} (p : Pkcs12 C) where
    by_magic : Bytes → Bool → Result KeystoreError (Detected S C)
    by_magic b m =
        if m
        then new_jks_keystore jks b changeit >>= (λ k. ok (found_jks k))
        else new_passwordless_keystore p b >>= (λ k. ok (found_pkcs12 k))

    detect_bytes-found_jks :
        (b : Bytes) {d : Detected S C}
        → is_jks b ≡ true
        → detect_bytes jks p b ≡ ok d
        → (s : S) × (jks.load b changeit ≡ some s)
          × (d ≡ found_jks (record { password = changeit; store = s }))
    unfolding detect_bytes by_magic new_jks_keystore
    detect_bytes-found_jks b m h =
        let (filled, h1) = if-eq-ok (is_nil b) empty_keystore (by_magic b (is_jks b)) h in
        let (k, h2, h3) =
          >>=-eq-ok (new_jks_keystore jks b changeit) (λ k. ok (found_jks k))
            (sym (ap (by_magic b) m) ∙ h1) in
        let (s, h4, h5) = decoded_jks-eq-ok (jks.load b changeit) h2 in
        (s, h4, sym (ok-injective h3) ∙ ap found_jks h5)

    -- A file with the magic number has a Java key store, which its password opens.
    pub detect_keystore-found_jks :
        (file : KeystoreFile) (b : Bytes) {d : Detected S C}
        → file.contents ≡ some b
        → is_jks b ≡ true
        → detect_keystore jks p file ≡ ok d
        → (s : S) × (jks.load b changeit ≡ some s)
          × (d ≡ found_jks (record { password = changeit; store = s }))
    unfolding detect_keystore read_bytes
    detect_keystore-found_jks file b c m h =
        detect_bytes-found_jks b m (sym (ap (read_bytes jks p) c) ∙ h)
