-- ===== src/Java/Certificates/JavaStore.antt =====
-- What Load makes of the file of a Java key store.
use jvm_vendors.Base.{
  ℕ, suc, ◌≡◌, refl, sym, ap, ◌∙◌, subst, true, Option, none, some, List, [], ◌∷◌, ◌++◌,
  Option-cases, inl, inr,
}
use jvm_vendors.Base.Result.{Result, ok, ◌>>=◌, >>=-eq-ok, map_err, map_err-eq-ok}
use jvm_vendors.Base.Text.{Text}
use jvm_vendors.Java.Keystore.{
  Bytes, Block, KeystoreFile, Jks, Pkcs12, JksKeystore, jks_operations, add_jks, write_jks,
  detect_keystore, with_contents, is_jks,
}
use jvm_vendors.Java.Keystore.Written.{write_file-eq-none}
use jvm_vendors.Java.Certificates.{
  FileSystem, Decode, CertificateLoader, LoadError, cannot_add, certificate_name, read_blocks,
  cert_files, add_blocks, add_files, load_into, load_detected, load,
}
use jvm_vendors.Java.Keystore.JavaStore.{
  changeit, trusted, add_jks-eq-ok, detect_keystore-found_jks,
}
use jvm_vendors.Java.Certificates.Entries.{named, all_named}
use jvm_vendors.Java.Certificates.Loaded.{then_write-eq-none, load_detected-eq-none}

module _ {S : Type 0} (jks : Jks S) where
  -- The blocks put into a store one after the other.
  unfoldable pub set_all : S → List (Text × Block) → Option S
  set_all s [] = some s
  set_all s ((name, b) ∷ rest) = elim (jks.set_trusted_certificate_entry s name (trusted b)) [
    | none ↦ none
    | some s' ↦ set_all s' rest
  ]

  set_all-append :
      (s : S) (xs ys : List (Text × Block)) {s' : S}
      → set_all s xs ≡ some s'
      → set_all s (xs ++ ys) ≡ set_all s' ys
  unfolding set_all
  set_all-append s [] ys {s' = s'} h = let e : s ≡ s' = cc in ap (λ x. set_all x ys) e
  set_all-append s ((name, b) ∷ xs) ys h =
      elim (Option-cases (jks.set_trusted_certificate_entry s name (trusted b))) [
        | inl e ↦ cc (rw (e, set_all) at h)
        | inr (t, e) ↦ rw (e, set_all) (set_all-append t xs ys (rw (e, set_all) at h))
      ]

  abbrev HasEntries : JksKeystore S → List (Text × Block) → JksKeystore S → Type 0
  HasEntries k blocks k' = (set_all k.store blocks ≡ some k'.store) × (k'.password ≡ k.password)

  HasEntries-cons :
      (k k' : JksKeystore S) (s : S) (name : Text) (b : Block) (rest : List (Text × Block))
      → jks.set_trusted_certificate_entry k.store name (trusted b) ≡ some s
      → HasEntries (record k { store = s }) rest k'
      → HasEntries k ((name, b) ∷ rest) k'
  unfolding set_all
  HasEntries-cons k k' s name b rest e (h, p) = (rw (e, set_all) h, p)

  add_blocks-HasEntries :
      (k k' : JksKeystore S) (f : Text) (i : ℕ) (bs : List Block)
      → add_blocks (jks_operations jks) k f i bs ≡ ok k'
      → HasEntries k (named f i bs) k'
  unfolding add_blocks named
  add_blocks-HasEntries k k' f i [] h =
      let e : k ≡ k' = cc in subst (λ x. HasEntries k [] x) e (unfold set_all in (refl, refl))
  add_blocks-HasEntries k k' f i (b ∷ bs) h =
      let (k1, h1, h2) =
        >>=-eq-ok (map_err (cannot_add f) (add_jks jks k (certificate_name f i) b))
          (λ k1. add_blocks (jks_operations jks) k1 f (suc i) bs) h in
      let (s, hs, e) =
        add_jks-eq-ok jks k k1 (certificate_name f i) b
          (map_err-eq-ok (cannot_add f) (add_jks jks k (certificate_name f i) b) h1) in
      HasEntries-cons k k' s (certificate_name f i) b (named f (suc i) bs) hs (
        subst (λ x. HasEntries x (named f (suc i) bs) k') e
          (add_blocks-HasEntries k1 k' f (suc i) bs h2))

  add_files-HasEntries :
      (fs : FileSystem) (decode : Decode) (k k' : JksKeystore S) (files : List Text)
      → add_files (jks_operations jks) fs decode k files ≡ ok k'
      → (blocks : List (Text × Block)) × (all_named fs decode files ≡ ok blocks)
        × HasEntries k blocks k'
  unfolding add_files all_named
  add_files-HasEntries fs decode k k' [] h =
      let e : k ≡ k' = cc in
      ([], refl, subst (λ x. HasEntries k [] x) e (unfold set_all in (refl, refl)))
  add_files-HasEntries fs decode k k' (f ∷ files) h =
      let (bs, h1, h2) =
        >>=-eq-ok (read_blocks fs decode f)
          (λ bs.
            add_blocks (jks_operations jks) k f 0 bs
            >>= (λ k1. add_files (jks_operations jks) fs decode k1 files))
          h in
      let (k1, h3, h4) =
        >>=-eq-ok (add_blocks (jks_operations jks) k f 0 bs)
          (λ k1. add_files (jks_operations jks) fs decode k1 files) h2 in
      let (first, same) = add_blocks-HasEntries k k1 f 0 bs h3 in
      let (rest, hr, (more, same')) = add_files-HasEntries fs decode k1 k' files h4 in
      (
        named f 0 bs ++ rest,
        rw (h1, hr),
        (set_all-append k.store (named f 0 bs) rest first ∙ more, same' ∙ same),
      )

module _ {S C : Type 0} (jks : Jks S) (p : Pkcs12 C) where
  -- What a load into a Java key store has made of its file: the store that its password opens, with
  -- an entry for each block of all files, set in order under the name of its file and its number.
  pub record IsStored (fs : FileSystem) (decode : Decode) (l : CertificateLoader)
      (file file' : KeystoreFile) (old_bytes : Bytes) : Type 0 where
    pub old : S
    pub files : List Text
    pub blocks : List (Text × Block)
    pub new : S
    pub new_bytes : Bytes
    pub was_opened : jks.load old_bytes changeit ≡ some old
    pub were_found : cert_files fs l ≡ ok files
    pub were_read : all_named fs decode files ≡ ok blocks
    pub were_set : set_all jks old blocks ≡ some new
    pub is_encoded : jks.store new changeit ≡ (new_bytes, true)
    pub is_written : (file.write_bytes new_bytes).1 ≡ true
    pub is_held : file' ≡ with_contents file (file.write_bytes new_bytes).0

  module _ (fs : FileSystem) (decode : Decode) (l : CertificateLoader) (file : KeystoreFile) where
    load_into-IsStored :
        (old_bytes : Bytes) (old : S) {file' : KeystoreFile}
        → file.writable ≡ true
        → jks.load old_bytes changeit ≡ some old
        → load_into
            (jks_operations jks)
            fs
            decode
            l
            (record { password = changeit; store = old })
            file
          ≡ (file', none)
        → IsStored fs decode l file file' old_bytes
    unfolding load_into write_jks
    load_into-IsStored old_bytes old {file'} w d h =
        let start : JksKeystore S = record { password = changeit; store = old } in
        let add : List Text → Result LoadError (JksKeystore S) =
          λ files. add_files (jks_operations jks) fs decode start files in
        let (k, hk, hw) =
          then_write-eq-none (jks_operations jks) (cert_files fs l >>= add) file h in
        let (files, hf, ha) = >>=-eq-ok (cert_files fs l) add hk in
        let (blocks, hb, (set, same)) = add_files-HasEntries jks fs decode start k files ha in
        let o = jks.store k.store k.password in
        let (whole, success, held) = write_file-eq-none file file' o.0 o.1 w hw in
        record {
          old = old;
          files = files;
          blocks = blocks;
          new = k.store;
          new_bytes = o.0;
          was_opened = d;
          were_found = hf;
          were_read = hb;
          were_set = set;
          is_encoded = ap (λ q. jks.store k.store q) (sym same) ∙ ap (λ b. (o.0, b)) whole;
          is_written = success;
          is_held = held;
        }

    -- A load that succeeds on a writable file, whose bytes begin with the magic number of a Java key
    -- store, leaves what the store is encoded to after an entry is set for each block of all
    -- certificate files, in order, each under the name of its file and its number.
    pub load-IsStored :
        (old_bytes : Bytes) {file' : KeystoreFile}
        → file.contents ≡ some old_bytes
        → is_jks old_bytes ≡ true
        → file.writable ≡ true
        → load jks p fs decode l file ≡ (file', none)
        → IsStored fs decode l file file' old_bytes
    unfolding load load_detected
    load-IsStored old_bytes {file'} c m w h =
        let (d, hd, h') =
          load_detected-eq-none jks p fs decode l file (detect_keystore jks p file) h in
        let (old, ho, found) = detect_keystore-found_jks jks p file old_bytes c m hd in
        load_into-IsStored old_bytes old w ho
          (subst (λ x. load_detected jks p fs decode l (ok x) file ≡ (file', none)) found h')
