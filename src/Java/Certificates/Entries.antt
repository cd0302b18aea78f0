-- ===== src/Java/Certificates/Entries.antt =====
-- What Load adds to a password-less key store.
use jvm_vendors.Base.{
  ℕ, suc, ◌≡◌, refl, sym, ap, ◌∙◌, subst, Option, none, some, List, [], ◌∷◌, ◌++◌, Option-cases,
  inl, inr,
}
use jvm_vendors.Base.Result.{Result, ok, ◌>>=◌, >>=-eq-ok, map_err, map_err-eq-ok, ok-injective}
use mathlib.Core.List.{append-nil, append_assoc}
use jvm_vendors.Base.Text.{Text}
use jvm_vendors.Java.Keystore.{
  Block, Pkcs12, pkcs12_operations, PasswordlessKeystore, TrustStoreEntry, add_pkcs12,
}
use jvm_vendors.Java.Certificates.{
  FileSystem, Decode, LoadError, cannot_add, read_blocks, certificate_name, add_blocks, add_files,
}

-- The blocks of a file with their names, and those of all files in turn.
unfoldable pub named : Text → ℕ → List Block → List (Text × Block)
named f i [] = []
named f i (b ∷ bs) = (certificate_name f i, b) ∷ named f (suc i) bs

unfoldable pub all_named : FileSystem → Decode → List Text → Result LoadError (List (Text × Block))
unfolding named
all_named fs decode [] = ok []
all_named fs decode (f ∷ files) =
    read_blocks fs decode f
    >>= (λ bs. all_named fs decode files >>= (λ rest. ok (named f 0 bs ++ rest)))

module _ {C : Type 0} (p : Pkcs12 C) where
  pub with_entry :
      Text → Option C → Option (List (TrustStoreEntry C)) → Option (List (TrustStoreEntry C))
  with_entry name none rest = none
  with_entry name (some c) none = none
  with_entry name (some c) (some es) = some (record { cert = c; friendly_name = name } ∷ es)

  -- The certificates in the blocks; none where one cannot be parsed.
  unfoldable pub parsed : List (Text × Block) → Option (List (TrustStoreEntry C))
  unfolding with_entry
  parsed [] = some []
  parsed ((name, b) ∷ rest) = with_entry name (p.parse_certificate b.bytes) (parsed rest)

  abbrev pub Added : PasswordlessKeystore C → List (Text × Block) → PasswordlessKeystore C → Type 0
  Added k blocks k' =
      (es : List (TrustStoreEntry C)) × (parsed blocks ≡ some es) × (k'.entries ≡ k.entries ++ es)

  Added-nil : (k : PasswordlessKeystore C) → Added k [] k
  unfolding parsed
  Added-nil k = ([], refl, sym (append-nil k.entries))

  -- Behind an entry that was added.
  Added-cons :
      (k k'' : PasswordlessKeystore C) (name : Text) (b : Block) (rest : List (Text × Block))
      (c : C)
      → p.parse_certificate b.bytes ≡ some c
      → Added
          (record { entries = k.entries ++ record { cert = c; friendly_name = name } ∷ [] })
          rest
          k''
      → Added k ((name, b) ∷ rest) k''
  unfolding parsed
  Added-cons k k'' name b rest c hc (es, hp, he) =
      let e : TrustStoreEntry C = record { cert = c; friendly_name = name } in
      (e ∷ es, rw (hc, hp), he ∙ append_assoc k.entries (e ∷ []) es)

  add_pkcs12-eq-ok :
      (k k' : PasswordlessKeystore C) (name : Text) (b : Block)
      → add_pkcs12 p k name b ≡ ok k'
      → (c : C) × (p.parse_certificate b.bytes ≡ some c)
        × (k' ≡ record { entries = k.entries ++ record { cert = c; friendly_name = name } ∷ [] })
  unfolding add_pkcs12
  add_pkcs12-eq-ok k k' name b h = elim (Option-cases (p.parse_certificate b.bytes)) [
    | inl e ↦ cc
    | inr (c, e) ↦ (c, e, ok-injective (sym h ∙ rw e))
  ]

  pub with_entry-eq-some :
      (name : Text) (o : Option C) (rest : Option (List (TrustStoreEntry C)))
      {es : List (TrustStoreEntry C)}
      → with_entry name o rest ≡ some es
      → (c : C) × (fs : List (TrustStoreEntry C)) × (o ≡ some c)
        × (rest ≡ some fs)
        × (es ≡ record { cert = c; friendly_name = name } ∷ fs)
  unfolding with_entry
  with_entry-eq-some name none rest h = cc
  with_entry-eq-some name (some c) none h = cc
  with_entry-eq-some name (some c) (some fs) h = (c, fs, refl, refl, cc)

  parsed-append :
      (xs ys : List (Text × Block)) {es fs : List (TrustStoreEntry C)}
      → parsed xs ≡ some es
      → parsed ys ≡ some fs
      → parsed (xs ++ ys) ≡ some (es ++ fs)
  unfolding parsed
  parsed-append [] ys {es} {fs} h k = let e : [] ≡ es = cc in rw (sym e) k
  parsed-append ((name, b) ∷ xs) ys {es} {fs} h k =
      let (c, gs, hc, hg, e) =
        with_entry-eq-some name (p.parse_certificate b.bytes) (parsed xs) h in
      rw (hc, parsed-append xs ys hg k, e)

  Added-append :
      (k k' k'' : PasswordlessKeystore C) (xs ys : List (Text × Block))
      → Added k xs k'
      → Added k' ys k''
      → Added k (xs ++ ys) k''
  Added-append k k' k'' xs ys (es, hp, he) (fs, hq, hf) = (
    es ++ fs,
    parsed-append xs ys hp hq,
    hf ∙ ap (λ (l : List (TrustStoreEntry C)). l ++ fs) he ∙ append_assoc k.entries es fs,
  )

  add_blocks-Added :
      (k k' : PasswordlessKeystore C) (f : Text) (i : ℕ) (bs : List Block)
      → add_blocks (pkcs12_operations p) k f i bs ≡ ok k'
      → Added k (named f i bs) k'
  unfolding add_blocks named
  add_blocks-Added k k' f i [] h = let e : k ≡ k' = cc in subst (Added k []) e (Added-nil k)
  add_blocks-Added k k' f i (b ∷ bs) h =
      let (k1, h1, h2) =
        >>=-eq-ok (map_err (cannot_add f) (add_pkcs12 p k (certificate_name f i) b))
          (λ k1. add_blocks (pkcs12_operations p) k1 f (suc i) bs) h in
      let (c, hc, e) =
        add_pkcs12-eq-ok k k1 (certificate_name f i) b
          (map_err-eq-ok (cannot_add f) (add_pkcs12 p k (certificate_name f i) b) h1) in
      Added-cons k k' (certificate_name f i) b (named f (suc i) bs) c hc
        (subst (λ x. Added x (named f (suc i) bs) k') e (add_blocks-Added k1 k' f (suc i) bs h2))

  pub add_files-Added :
      (fs : FileSystem) (decode : Decode) (k k' : PasswordlessKeystore C) (files : List Text)
      → add_files (pkcs12_operations p) fs decode k files ≡ ok k'
      → (blocks : List (Text × Block)) × (all_named fs decode files ≡ ok blocks) × Added k blocks k'
  unfolding add_files all_named
  add_files-Added fs decode k k' [] h =
      let e : k ≡ k' = cc in ([], refl, subst (Added k []) e (Added-nil k))
  add_files-Added fs decode k k' (f ∷ files) h =
      let (bs, h1, h2) =
        >>=-eq-ok (read_blocks fs decode f)
          (λ bs.
            add_blocks (pkcs12_operations p) k f 0 bs
            >>= (λ k1. add_files (pkcs12_operations p) fs decode k1 files))
          h in
      let (k1, h3, h4) =
        >>=-eq-ok (add_blocks (pkcs12_operations p) k f 0 bs)
          (λ k1. add_files (pkcs12_operations p) fs decode k1 files) h2 in
      let (rest, hr, added) = add_files-Added fs decode k1 k' files h4 in
      (
        named f 0 bs ++ rest,
        rw (h1, hr),
        Added-append k k1 k' (named f 0 bs) rest (add_blocks-Added k k1 f 0 bs h3) added,
      )
