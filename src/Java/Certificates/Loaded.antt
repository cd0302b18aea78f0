-- ===== src/Java/Certificates/Loaded.antt =====
-- What Load makes of the file of a key store.
use jvm_vendors.Base.{
  ◌≡◌, refl, sym, ap, ◌∙◌, subst, true, false, Option, none, some, List, [], ◌++◌, map,
}
use jvm_vendors.Base.Result.{Result, ok, err, ◌>>=◌, >>=-eq-ok}
use jvm_vendors.Base.Text.{Text}
use jvm_vendors.Java.Keystore.{
  Bytes, Block, KeystoreError, KeystoreFile, Keystore, Jks, Pkcs12, detect_keystore, Detected,
  pkcs12_operations, PasswordlessKeystore, TrustStoreEntry, subject_entry, with_contents, is_jks,
  encoding, write_pkcs12,
}
use jvm_vendors.Java.Keystore.Written.{write_file-eq-none}
use jvm_vendors.Java.Keystore.Detection.{detect_keystore-eq-ok}
use jvm_vendors.Java.Certificates.{
  FileSystem, Decode, CertificateLoader, LoadError, cert_files, add_files, then_write,
  write_outcome, load_into, load_detected, load,
}
use jvm_vendors.Java.Certificates.Entries.{all_named, parsed, add_files-Added}

module _ {K : Type 0} (keystore : Keystore K) where
  write_outcome-eq-none :
      (r : KeystoreFile × Option KeystoreError) {file' : KeystoreFile}
      → write_outcome keystore r ≡ (file', none)
      → r ≡ (file', none)
  unfolding write_outcome
  write_outcome-eq-none (file, none) h = cc
  write_outcome-eq-none (file, some e) h = cc

  pub then_write-eq-none :
      (r : Result LoadError K) (file : KeystoreFile) {file' : KeystoreFile}
      → then_write keystore r file ≡ (file', none)
      → (k : K) × (r ≡ ok k) × (keystore.write k file ≡ (file', none))
  unfolding then_write
  then_write-eq-none (err e) file h = cc
  then_write-eq-none (ok k) file h = (k, refl, write_outcome-eq-none (keystore.write k file) h)

encoding-eq-true : (o : Option Bytes) → (encoding o).1 ≡ true → o ≡ some (encoding o).0
encoding-eq-true none h = cc
encoding-eq-true (some b) h = refl

module _ {S C : Type 0} (jks : Jks S) (p : Pkcs12 C) where
  -- What a load into a store without a password has made of its file: the certificates that the
  -- store had, with the names of their subjects, then those of all blocks of all files in order.
  pub record IsLoaded (fs : FileSystem) (decode : Decode) (l : CertificateLoader)
      (file file' : KeystoreFile) (old_bytes : Bytes) : Type 0 where
    pub old : List C
    pub files : List Text
    pub blocks : List (Text × Block)
    pub new : List (TrustStoreEntry C)
    pub new_bytes : Bytes
    pub was_decoded : p.decode_trust_store old_bytes [] ≡ some old
    pub were_found : cert_files fs l ≡ ok files
    pub were_read : all_named fs decode files ≡ ok blocks
    pub were_parsed : parsed p blocks ≡ some new
    pub is_encoded :
        p.encode_trust_store_entries (map (subject_entry p) old ++ new) [] ≡ some new_bytes
    pub is_written : (file.write_bytes new_bytes).1 ≡ true
    pub is_held : file' ≡ with_contents file (file.write_bytes new_bytes).0

  module _ (fs : FileSystem) (decode : Decode) (l : CertificateLoader) (file : KeystoreFile) where
    load_into-IsLoaded :
        (old_bytes : Bytes) (old : List C) {file' : KeystoreFile}
        → file.writable ≡ true
        → p.decode_trust_store old_bytes [] ≡ some old
        → load_into
            (pkcs12_operations p)
            fs
            decode
            l
            (record { entries = map (subject_entry p) old })
            file
          ≡ (file', none)
        → IsLoaded fs decode l file file' old_bytes
    unfolding load_into write_pkcs12
    load_into-IsLoaded old_bytes old {file'} w d h =
        let start : PasswordlessKeystore C = record { entries = map (subject_entry p) old } in
        let add : List Text → Result LoadError (PasswordlessKeystore C) =
          λ files. add_files (pkcs12_operations p) fs decode start files in
        let (k, hk, hw) =
          then_write-eq-none (pkcs12_operations p) (cert_files fs l >>= add) file h in
        let (files, hf, ha) = >>=-eq-ok (cert_files fs l) add hk in
        let (blocks, hb, (new, hn, he)) = add_files-Added p fs decode start k files ha in
        let o = p.encode_trust_store_entries k.entries [] in
        let (whole, success, held) =
          write_file-eq-none file file' (encoding o).0 (encoding o).1 w hw in
        record {
          old = old;
          files = files;
          blocks = blocks;
          new = new;
          new_bytes = (encoding o).0;
          was_decoded = d;
          were_found = hf;
          were_read = hb;
          were_parsed = hn;
          is_encoded =
              ap (λ es. p.encode_trust_store_entries es []) (sym he) ∙ encoding-eq-true o whole;
          is_written = success;
          is_held = held;
        }

    pub load_detected-eq-none :
        (r : Result KeystoreError (Detected S C)) {file' : KeystoreFile}
        → load_detected jks p fs decode l r file ≡ (file', none)
        → (d : Detected S C) × (r ≡ ok d)
          × (load_detected jks p fs decode l (ok d) file ≡ (file', none))
    unfolding load_detected
    load_detected-eq-none (err e) h = cc
    load_detected-eq-none (ok d) h = (d, refl, h)

    -- A load that succeeds on a writable file, whose bytes do not begin with the magic number of a
    -- Java key store, leaves the encoding of the old certificates and behind them those in all
    -- blocks of all certificate files, in order, each under the name of its file and its number.
    pub load-IsLoaded :
        (old_bytes : Bytes) {file' : KeystoreFile}
        → file.contents ≡ some old_bytes
        → is_jks old_bytes ≡ false
        → file.writable ≡ true
        → load jks p fs decode l file ≡ (file', none)
        → IsLoaded fs decode l file file' old_bytes
    unfolding load load_detected
    load-IsLoaded old_bytes {file'} c m w h =
        let (d, hd, h') = load_detected-eq-none (detect_keystore jks p file) h in
        let (old, ho, is_pkcs12) = detect_keystore-eq-ok jks p file old_bytes c m hd in
        load_into-IsLoaded old_bytes old w ho
          (subst (λ x. load_detected jks p fs decode l (ok x) file ≡ (file', none)) is_pkcs12 h')
