-- ===== src/Calc/Calculator/Errors.antt =====
-- What the errors of a calculation mean.
use jvm_vendors.Base.{
  ◌+◌, ◌<◌, ◌≡◌, ◌⊎◌, refl, ◌∙◌, Bool, true, false, List, [], ◌∷◌, Option, none, some, arith, subst,
  inl, inr, ltb→lt,
}
use jvm_vendors.Base.Int.{ℤ, pos, pos_part, neg_part, add64, mul64, sub64, ltb_ℤ}
use jvm_vendors.Base.Float.{Float64}
use jvm_vendors.Base.Text.{Text}
use jvm_vendors.Base.Result.{Result, ok, err, if-eq-err}
use jvm_vendors.Calc.Size.{min_heap_size}
use jvm_vendors.Calc.Regions.{
  MemoryRegions, CalcError, fixed_exceeds, non_heap_exceeds, all_exceeds, heap_too_small,
  unparsable_flags, bad_direct_memory, bad_heap, bad_metaspace, bad_code_cache, bad_stack,
  apply_flag, apply_flags, new_memory_regions_from_flags, fixed_regions_size, non_heap_regions_size,
  all_regions_size, all_regions_string,
}
use jvm_vendors.Calc.Calculator.{
  Calculator, ThreadCount, head_room_of, set_if_unset, class_size, class_overhead, size_regions,
  fit_non_heap, fit_all, low_profile_regions, calculate,
}

-- The errors of reading the flags.
abbrev pub is_flag_fault : CalcError → Bool
is_flag_fault unparsable_flags = true
is_flag_fault (bad_direct_memory e) = true
is_flag_fault (bad_heap e) = true
is_flag_fault (bad_metaspace e) = true
is_flag_fault (bad_code_cache e) = true
is_flag_fault (bad_stack e) = true
is_flag_fault _ = false

infix 50 ◌<ℤ◌
abbrev pub ◌<ℤ◌ : ℤ → ℤ → Type 0
a <ℤ b = pos_part a + neg_part b < pos_part b + neg_part a

-- What a refusal tells: the total that was given, and a sum above it; or a heap below the least.
-- The other errors do not stand for a refusal.
abbrev pub Explains : Calculator → CalcError → Type 0
Explains c (fixed_exceeds n total s) = (total ≡ c.total_memory.value) × (total <ℤ n)
Explains c (non_heap_exceeds n total s) = (total ≡ c.total_memory.value) × (total <ℤ n)
Explains c (all_exceeds n total s) = (total ≡ c.total_memory.value) × (total <ℤ n)
Explains c (heap_too_small n) = n <ℤ pos min_heap_size
Explains c _ = ⊥

module _ {F : Type 0} (fl : Float64 F) where
  size_regions-Explains :
      (c : Calculator) (m : MemoryRegions F) (t : ThreadCount) {e : CalcError}
      → size_regions fl c (m, t) ≡ err e
      → Explains c e
  unfolding size_regions fit_non_heap fit_all fixed_regions_size non_heap_regions_size
      all_regions_size all_regions_string
  size_regions-Explains c m t {e} h =
      let metaspace =
        set_if_unset m.metaspace (add64 class_overhead (mul64 class_size c.loaded_class_count)) in
      let f =
        add64 (add64 (add64 m.direct_memory.value metaspace.value) m.reserved_code_cache.value)
          (mul64 m.stack.value t.value) in
      let total = c.total_memory.value in
      let n = add64 f (head_room_of fl c) in
      let heap = set_if_unset m.heap (sub64 total n) in
      let a = add64 n heap.value in
      elim (if-eq-err (ltb_ℤ total f) _ _ h) [
        | inl (over, same) ↦ subst (Explains c) same (refl, ltb→lt _ _ over)
        | inr (within, rest) ↦ elim (if-eq-err (ltb_ℤ total n) _ _ rest) [
          | inl (over, same) ↦ subst (Explains c) same (refl, ltb→lt _ _ over)
          | inr (within', rest') ↦ elim (if-eq-err (ltb_ℤ total a) _ _ rest') [
            | inl (over, same) ↦ subst (Explains c) same (refl, ltb→lt _ _ over)
            | inr (within'', rest'') ↦
                elim (if-eq-err (ltb_ℤ heap.value (pos min_heap_size)) _ _ rest'') [
                  | inl (small, same) ↦ subst (Explains c) same (ltb→lt _ _ small)
                  | inr (large, done) ↦ cc
                ]
          ]
        ]
      ]

  apply_flag-fault :
      (m : MemoryRegions F) (f : Text) {e : CalcError}
      → apply_flag m f ≡ err e
      → is_flag_fault e ≡ true
  unfolding apply_flag
  apply_flag-fault m f h = ground arith

  apply_flags-fault :
      (m : MemoryRegions F) (fs : List Text) {e : CalcError}
      → apply_flags m fs ≡ err e
      → is_flag_fault e ≡ true
  unfolding apply_flags
  apply_flags-fault m [] h = cc
  apply_flags-fault m (f ∷ fs) {e} h = go (apply_flag m f) refl (λ m'. apply_flags-fault m' fs)
    where
      go :
          (r : Result CalcError (MemoryRegions F))
          → apply_flag m f ≡ r
          → ((m' : MemoryRegions F) → apply_flags m' fs ≡ err e → is_flag_fault e ≡ true)
          → is_flag_fault e ≡ true
      go (ok m') eq ih = ih m' (rw eq at h)
      go (err x) eq ih = apply_flag-fault m f (eq ∙ (rw eq at h))

  new_memory_regions-fault :
      (shellwords : Text → Option (List Text)) (one : F) (flags : Text) {e : CalcError}
      → new_memory_regions_from_flags shellwords one flags ≡ err e
      → is_flag_fault e ≡ true
  unfolding new_memory_regions_from_flags
  new_memory_regions-fault shellwords one flags {e} h = go (shellwords flags) refl
    where
      go : (w : Option (List Text)) → shellwords flags ≡ w → is_flag_fault e ≡ true
      go none eq = ground (arith, (rw eq at h))
      go (some words) eq = apply_flags-fault _ words (rw eq at h)

  -- A calculation fails with a fault of the flags, or with a refusal that is true: the sum that it
  -- names is above the total memory that was given, or the heap that it names is below the least
  -- heap. It never panics on a nil heap, and never lacks the metaspace or the head room.
  pub calculate-Explains :
      (shellwords : Text → Option (List Text)) (c : Calculator) (flags : Text) {e : CalcError}
      → calculate fl shellwords c flags ≡ err e
      → (is_flag_fault e ≡ true) ⊎ Explains c e
  unfolding calculate
  calculate-Explains shellwords c flags {e} h =
      go (new_memory_regions_from_flags shellwords (fl.of_int (pos 1)) flags) refl
    where
      go :
          (r : Result CalcError (MemoryRegions F))
          → new_memory_regions_from_flags shellwords (fl.of_int (pos 1)) flags ≡ r
          → (is_flag_fault e ≡ true) ⊎ Explains c e
      go (ok m) eq = inr (
          size_regions-Explains c (low_profile_regions fl c m).0 (low_profile_regions fl c m).1
            (rw eq at h))
      go (err x) eq =
          inl (new_memory_regions-fault shellwords (fl.of_int (pos 1)) flags (eq ∙ cc (rw eq at h)))
