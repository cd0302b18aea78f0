-- ===== src/Java/Keystore/Written.antt =====
-- What a write of the key store makes of its file.
use jvm_vendors.Base.{
  ◌≡◌, refl, sym, ap, ◌∙◌, ◌⊎◌, inl, inr, Bool, true, false, not, Option, none, some, if◌then◌else◌,
  Bool-cases,
}
use jvm_vendors.Java.Keystore.{
  Bytes, KeystoreFile, KeystoreError, not_encoded, not_written, with_contents, held_after,
  opened_file, write_file,
}

-- Of the errors of a write, those that come when the file is emptied.
pub IsDestructive : KeystoreError → Type 0
IsDestructive e = (e ≡ not_encoded) ⊎ (e ≡ not_written)

module _ (file : KeystoreFile) (encoded : Bytes × Bool) where
  guarded : Bool → KeystoreFile × Option KeystoreError
  guarded w = if not w then (file, none) else opened_file file.opens file encoded

  write_file-writable :
      file.writable ≡ true → write_file file encoded ≡ opened_file file.opens file encoded
  unfolding write_file guarded
  write_file-writable h = ap guarded h

  -- A file that the process may not write is not written.
  pub write_file-unwritable : file.writable ≡ false → write_file file encoded ≡ (file, none)
  unfolding write_file guarded
  write_file-unwritable h = ap guarded h

module _ (file file' : KeystoreFile) where
  abbrev Held : Bytes × Bool → Bool → Type 0
  Held r whole = (whole ≡ true) × (r.1 ≡ true) × (file' ≡ with_contents file r.0)

  held_after-eq-none :
      (r : Bytes × Bool) (whole : Bool) → held_after file r whole ≡ (file', none) → Held r whole
  unfolding held_after
  held_after-eq-none (held, true) true h = (refl, refl, cc)
  held_after-eq-none (held, false) true h = cc
  held_after-eq-none (held, true) false h = cc
  held_after-eq-none (held, false) false h = cc

  opened_file-eq-none :
      (opens : Bool) (b : Bytes) (whole : Bool)
      → opened_file opens file (b, whole) ≡ (file', none)
      → Held (file.write_bytes b) whole
  unfolding opened_file
  opened_file-eq-none false b whole h = cc
  opened_file-eq-none true b whole h = held_after-eq-none (file.write_bytes b) whole h

  -- A writable file that is written without an error holds what was written.
  pub write_file-eq-none :
      (b : Bytes) (whole : Bool)
      → file.writable ≡ true
      → write_file file (b, whole) ≡ (file', none)
      → Held (file.write_bytes b) whole
  write_file-eq-none b whole w h =
      opened_file-eq-none file.opens b whole (sym (write_file-writable file (b, whole) w) ∙ h)

  held_after-eq-some :
      (r : Bytes × Bool) (whole : Bool) {e : KeystoreError}
      → held_after file r whole ≡ (file', some e)
      → IsDestructive e
  unfolding held_after IsDestructive
  held_after-eq-some (held, true) true h = cc
  held_after-eq-some (held, false) true h = inr cc
  held_after-eq-some (held, true) false h = inl cc
  held_after-eq-some (held, false) false h = inl cc

  opened_file-eq-some :
      (opens : Bool) (encoded : Bytes × Bool) {e : KeystoreError}
      → opened_file opens file encoded ≡ (file', some e)
      → IsDestructive e ⊎ (file' ≡ file)
  unfolding opened_file
  opened_file-eq-some false encoded h = inr cc
  opened_file-eq-some true (b, whole) h = inl (held_after-eq-some (file.write_bytes b) whole h)

  -- Another error leaves the file alone.
  pub write_file-eq-some :
      (encoded : Bytes × Bool) {e : KeystoreError}
      → write_file file encoded ≡ (file', some e)
      → IsDestructive e ⊎ (file' ≡ file)
  write_file-eq-some encoded h = elim (Bool-cases file.writable) [
    | inl w ↦ opened_file-eq-some file.opens encoded (sym (write_file-writable file encoded w) ∙ h)
    | inr w ↦ let e = sym (write_file-unwritable file encoded w) ∙ h in inr cc
  ]
