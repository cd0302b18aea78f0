-- ===== src/Java/Certificates/Distinct.antt =====
-- The certificates that Load adds to a key store without a password have names of their own.
use jvm_vendors.Base.{
  ℕ, suc, ◌<◌, ◌≡◌, ◌≢◌, sym, ◌∙◌, subst, true, false, none, some, map, ◌⊎◌, inl, inr, List, [],
  ◌∷◌, ◌++◌, arith, All, All-append,
}
use jvm_vendors.Base.Result.{ok, ◌>>=◌, >>=-eq-ok, ok-injective}
use jvm_vendors.Base.Text.{Text}
use jvm_vendors.Java.Keystore.{Block, Bytes, KeystoreFile, Jks, Pkcs12, TrustStoreEntry, is_jks}
use jvm_vendors.Java.Certificates.{
  FileSystem, Decode, CertificateLoader, certificate_name, read_blocks, cert_files, load,
}
use jvm_vendors.Java.Certificates.Loaded.{IsLoaded, load-IsLoaded}
use jvm_vendors.Java.Certificates.Entries.{named, all_named, parsed, with_entry-eq-some}
use jvm_vendors.Java.Certificates.Names.{certificate_name-injective}

-- Files that are listed once, and certificates with names of their own.
unfoldable pub IsOnce : List Text → Type 0
IsOnce [] = Unit
IsOnce (f ∷ files) = All (λ g. f ≢ g) files × IsOnce files

HasOwnNames : List (Text × Block) → Type 0
HasOwnNames [] = Unit
HasOwnNames (x ∷ xs) = All (λ y. x.0 ≢ y.0) xs × HasOwnNames xs

abbrev Misses : Text → List (Text × Block) → Type 0
Misses name = All (λ y. name ≢ y.0)

HasOwnNames-append :
    (xs ys : List (Text × Block))
    → HasOwnNames xs
    → HasOwnNames ys
    → All (λ x. Misses x.0 ys) xs
    → HasOwnNames (xs ++ ys)
unfolding HasOwnNames
HasOwnNames-append [] ys h k m = k
HasOwnNames-append (x ∷ xs) ys (hx, h) k (mx, m) =
    (All-append (λ y. x.0 ≢ y.0) xs ys hx mx, HasOwnNames-append xs ys h k m)

named-Misses :
    (f g : Text) (i j : ℕ) (bs : List Block)
    → (f ≢ g) ⊎ (i < j)
    → Misses (certificate_name f i) (named g j bs)
unfolding named
named-Misses f g i j [] h = tt
named-Misses f g i j (b ∷ bs) (inl h) =
    (λ e. h (certificate_name-injective f g i j e).0, named-Misses f g i (suc j) bs (inl h))
named-Misses f g i j (b ∷ bs) (inr h) = (
  λ e. let same : i ≡ j = (certificate_name-injective f g i j e).1 in omega (arith, same, h),
  named-Misses f g i (suc j) bs (inr (omega (arith, h))),
)

named-HasOwnNames : (f : Text) (i : ℕ) (bs : List Block) → HasOwnNames (named f i bs)
unfolding named HasOwnNames
named-HasOwnNames f i [] = tt
named-HasOwnNames f i (b ∷ bs) =
    (named-Misses f f i (suc i) bs (inr (omega arith)), named-HasOwnNames f (suc i) bs)

module _ (fs : FileSystem) (decode : Decode) where
  all_named-Misses :
      (f : Text) (i : ℕ) (files : List Text) {blocks : List (Text × Block)}
      → All (λ g. f ≢ g) files
      → all_named fs decode files ≡ ok blocks
      → Misses (certificate_name f i) blocks
  unfolding all_named
  all_named-Misses f i [] h e = subst (Misses (certificate_name f i)) (ok-injective e) tt
  all_named-Misses f i (g ∷ files) {blocks} (hg, h) e =
      let (bs, h1, h2) =
        >>=-eq-ok (read_blocks fs decode g)
          (λ bs. all_named fs decode files >>= (λ rest. ok (named g 0 bs ++ rest))) e in
      let (rest, h3, h4) =
        >>=-eq-ok (all_named fs decode files) (λ rest. ok (named g 0 bs ++ rest)) h2 in
      subst (Misses (certificate_name f i)) (ok-injective h4) (
        All-append (λ y. certificate_name f i ≢ y.0) (named g 0 bs) rest
          (named-Misses f g i 0 bs (inl hg)) (all_named-Misses f i files h h3))

  named-apart :
      (f : Text) (i : ℕ) (bs : List Block) (ys : List (Text × Block))
      → ((j : ℕ) → Misses (certificate_name f j) ys)
      → All (λ x. Misses x.0 ys) (named f i bs)
  unfolding named
  named-apart f i [] ys m = tt
  named-apart f i (b ∷ bs) ys m = (m i, named-apart f (suc i) bs ys m)

  -- The blocks of files that are listed once get names of their own.
  all_named-HasOwnNames :
      (files : List Text) {blocks : List (Text × Block)}
      → IsOnce files
      → all_named fs decode files ≡ ok blocks
      → HasOwnNames blocks
  unfolding all_named IsOnce
  all_named-HasOwnNames [] h e = subst HasOwnNames (ok-injective e) (unfold HasOwnNames in tt)
  all_named-HasOwnNames (f ∷ files) {blocks} (hf, h) e =
      let (bs, h1, h2) =
        >>=-eq-ok (read_blocks fs decode f)
          (λ bs. all_named fs decode files >>= (λ rest. ok (named f 0 bs ++ rest))) e in
      let (rest, h3, h4) =
        >>=-eq-ok (all_named fs decode files) (λ rest. ok (named f 0 bs ++ rest)) h2 in
      subst HasOwnNames (ok-injective h4) (
        HasOwnNames-append (named f 0 bs) rest (named-HasOwnNames f 0 bs)
          (all_named-HasOwnNames files h h3)
          (named-apart f 0 bs rest (λ j. all_named-Misses f j files hf h3)))

module _ {S C : Type 0} (jks : Jks S) (p : Pkcs12 C) where
  parsed-apart :
      (name : Text) (blocks : List (Text × Block)) {es : List (TrustStoreEntry C)}
      → Misses name blocks
      → parsed p blocks ≡ some es
      → All (λ g. name ≢ g) (map (λ e. e.friendly_name) es)
  unfolding parsed
  parsed-apart name [] {es} m h =
      let same : [] ≡ es = cc in
      subst (λ t. All (λ g. name ≢ g) (map (λ e. e.friendly_name) t)) same tt
  parsed-apart name ((n, b) ∷ rest) {es} (hn, m) h =
      let (c, fs, hc, hf, same) =
        with_entry-eq-some p n (p.parse_certificate b.bytes) (parsed p rest) h in
      subst (λ t. All (λ g. name ≢ g) (map (λ e. e.friendly_name) t)) (sym same)
        (hn, parsed-apart name rest m hf)

  -- The entries of blocks with names of their own have these names.
  parsed-IsOnce :
      (blocks : List (Text × Block)) {es : List (TrustStoreEntry C)}
      → HasOwnNames blocks
      → parsed p blocks ≡ some es
      → IsOnce (map (λ e. e.friendly_name) es)
  unfolding parsed HasOwnNames IsOnce
  parsed-IsOnce [] {es} m h =
      let same : [] ≡ es = cc in subst (λ t. IsOnce (map (λ e. e.friendly_name) t)) same tt
  parsed-IsOnce ((n, b) ∷ rest) {es} (hn, m) h =
      let (c, fs, hc, hf, same) =
        with_entry-eq-some p n (p.parse_certificate b.bytes) (parsed p rest) h in
      subst (λ t. IsOnce (map (λ e. e.friendly_name) t)) (sym same)
        (parsed-apart n rest hn hf, parsed-IsOnce rest m hf)

  -- If the certificate files of the loader are listed once, then a load that succeeds on a writable
  -- file, whose bytes do not begin with the magic number of a Java key store, leaves the encoding of the
  -- old certificates and behind them those in all blocks of all certificate files, and no two of these
  -- new entries have the same name.
  pub load-HasOwnNames :
      (fs : FileSystem) (decode : Decode) (l : CertificateLoader) (file : KeystoreFile)
      (files : List Text) (old_bytes : Bytes) {file' : KeystoreFile}
      → cert_files fs l ≡ ok files
      → IsOnce files
      → file.contents ≡ some old_bytes
      → is_jks old_bytes ≡ false
      → file.writable ≡ true
      → load jks p fs decode l file ≡ (file', none)
      → (loaded : IsLoaded jks p fs decode l file file' old_bytes) × IsOnce
          (map (λ e. e.friendly_name) loaded.new)
  load-HasOwnNames fs decode l file files old_bytes found once c m w h =
      let loaded = load-IsLoaded jks p fs decode l file old_bytes c m w h in
      let same : files ≡ loaded.files = ok-injective (sym found ∙ loaded.were_found) in
      (
        loaded,
        parsed-IsOnce loaded.blocks
            (all_named-HasOwnNames fs decode loaded.files (subst IsOnce same once) loaded.were_read)
            loaded.were_parsed,
      )
