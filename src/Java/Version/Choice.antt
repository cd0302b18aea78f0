-- ===== src/Java/Version/Choice.antt =====
-- Major versions, and the next version that is tried.
use jvm_vendors.Base.{ℕ, ◌≡◌, refl, true, false, ◌∷◌, ◌++◌, Bool-cases, inl, inr, ◌⊎◌}
use jvm_vendors.Base.Result.{ok}
use jvm_vendors.Base.Text.{Text, codes, text_eq}
use jvm_vendors.Base.Text.Split.{Lacks, split-append, split-Lacks}
use jvm_vendors.Java.Version.{
  Resolution, extract_major_version, major_of, after_one, is_missing, next_version,
  available_version,
}

-- What stands in front of the first dot of a version is its major version, unless it is 1; then it
-- is what stands between the first and the second dot.
pub extract_major_version_parts :
    (a b rest : Text)
    → Lacks b'.' a
    → Lacks b'.' b
    → (text_eq a (codes "1") ≡ false → extract_major_version (a ++ b'.' ∷ rest) ≡ ok a)
      × (extract_major_version (codes "1." ++ b) ≡ ok b)
      × (extract_major_version (codes "1." ++ (b ++ b'.' ∷ rest)) ≡ ok b)
unfolding extract_major_version major_of after_one text_eq
extract_major_version_parts a b rest ha hb =
    let one : Lacks b'.' (codes "1") = (refl, tt) in
    let e = split-append b'.' (codes "1") b one in
    let f = split-append b'.' (codes "1") (b ++ b'.' ∷ rest) one in
    (
      (λ h. rw (split-append b'.' a rest ha, h)),
      rw (e, split-Lacks b'.' b hb) refl,
      rw (f, split-append b'.' b rest hb) refl,
    )

-- The version that is taken for the manifest is the one that was read or the next one. It is the
-- next one only if that is there and the one that was read is not; and it is missing only if both
-- are.
pub available_version-available :
    (other : ℕ → ℕ) {D : Type 0} (resolve : Text → Text → Resolution D) (vendor version : Text)
    → let taken = available_version other resolve vendor version in
      ((taken ≡ version) ⊎ (taken ≡ next_version other resolve version))
      × (is_missing other resolve vendor taken ≡ true
          → (is_missing other resolve vendor version ≡ true)
            × (is_missing other resolve vendor (next_version other resolve version) ≡ true))
      × (is_missing other resolve vendor version ≡ false → taken ≡ version)
unfolding available_version
available_version-available other resolve vendor version =
    elim (Bool-cases (is_missing other resolve vendor version)) [
      | inl e ↦
          elim (Bool-cases (is_missing other resolve vendor (next_version other resolve version))) [
            | inl f ↦ (inl (rw (e, f)), (λ h. (e, f)), λ h. cc)
            | inr f ↦ (inr (rw (e, f)), (λ h. absurd (cc (rw (e, f) at h))), λ h. cc)
          ]
      | inr e ↦ (inl (rw e), (λ h. absurd (cc (rw e at h))), λ h. rw e)
    ]
