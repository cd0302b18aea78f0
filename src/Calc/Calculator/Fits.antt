-- ===== src/Calc/Calculator/Fits.antt =====
-- What a successful calculation returns: regions that fit the total memory.
use jvm_vendors.Base.{◌≡◌, refl, Option, some, List, subst, not-ltb}
use jvm_vendors.Base.Int.{pos, add64, mul64, sub64, ltb_ℤ, ◌≤ℤ◌}
use jvm_vendors.Base.Float.{Float64}
use jvm_vendors.Base.Result.{ok, >>=-eq-ok, if-eq-ok, ok-injective}
use jvm_vendors.Base.Text.{Text}
use jvm_vendors.Calc.Size.{Size, calculated, min_heap_size}
use jvm_vendors.Calc.Regions.{
  MemoryRegions, new_memory_regions_from_flags, fixed_regions_size, non_heap_regions_size,
  all_regions_size,
}
use jvm_vendors.Calc.Calculator.{
  Calculator, ThreadCount, Output, class_size, class_overhead, set_if_unset, head_room_of,
  size_regions, fit_non_heap, fit_all, low_profile_regions, calculate,
}

module _ {F : Type 0} (fl : Float64 F) where
  -- The outcome `o` of a calculation for the regions `m` that flags and scaling gave.
  pub record IsFit (c : Calculator) (m : MemoryRegions F) (t : ThreadCount) (o : Output F)
      : Type 0 where
    pub threads : o.thread_count ≡ t
    pub direct_memory : o.memory.direct_memory ≡ m.direct_memory
    pub reserved_code_cache : o.memory.reserved_code_cache ≡ m.reserved_code_cache
    pub stack : o.memory.stack ≡ m.stack
    pub metaspace :
        o.memory.metaspace
        ≡ some (
            set_if_unset m.metaspace (add64 class_overhead (mul64 class_size c.loaded_class_count)))
    pub head_room :
        o.memory.head_room ≡ some (record { value = head_room_of fl c; provenance = calculated })
    pub fixed : Size
    pub fixed_sum : fixed_regions_size o.memory t.value ≡ ok fixed
    pub fixed_fits : fixed.value ≤ℤ c.total_memory.value
    pub non_heap : Size
    pub non_heap_sum : non_heap_regions_size o.memory t.value ≡ ok non_heap
    pub non_heap_fits : non_heap.value ≤ℤ c.total_memory.value
    pub heap : Size
    pub heap_set : o.memory.heap ≡ some heap
    pub heap_rest : heap ≡ set_if_unset m.heap (sub64 c.total_memory.value non_heap.value)
    pub heap_large : pos min_heap_size ≤ℤ heap.value
    pub all : Size
    pub all_sum : all_regions_size o.memory t.value ≡ ok all
    pub all_fits : all.value ≤ℤ c.total_memory.value

  pub size_regions-IsFit :
      (c : Calculator) (m : MemoryRegions F) (t : ThreadCount) {o : Output F}
      → size_regions fl c (m, t) ≡ ok o
      → IsFit c m t o
  unfolding size_regions fit_non_heap fit_all fixed_regions_size non_heap_regions_size
      all_regions_size
  size_regions-IsFit c m t {o} h =
      let metaspace =
        set_if_unset m.metaspace (add64 class_overhead (mul64 class_size c.loaded_class_count)) in
      let f =
        add64 (add64 (add64 m.direct_memory.value metaspace.value) m.reserved_code_cache.value)
          (mul64 m.stack.value t.value) in
      let total = c.total_memory.value in
      let n = add64 f (head_room_of fl c) in
      let heap = set_if_unset m.heap (sub64 total n) in
      let a = add64 n heap.value in
      let (fixed_ok, rest) = if-eq-ok (ltb_ℤ total f) _ _ h in
      let (non_heap_ok, rest') = if-eq-ok (ltb_ℤ total n) _ _ rest in
      let (all_ok, rest'') = if-eq-ok (ltb_ℤ total a) _ _ rest' in
      let (heap_ok, done) = if-eq-ok (ltb_ℤ heap.value (pos min_heap_size)) _ _ rest'' in
      subst (IsFit c m t) (ok-injective done) (record {
        threads = refl;
        direct_memory = refl;
        reserved_code_cache = refl;
        stack = refl;
        metaspace = refl;
        head_room = refl;
        fixed = record { value = f; provenance = calculated };
        fixed_sum = refl;
        fixed_fits = not-ltb _ _ fixed_ok;
        non_heap = record { value = n; provenance = calculated };
        non_heap_sum = refl;
        non_heap_fits = not-ltb _ _ non_heap_ok;
        heap = heap;
        heap_set = refl;
        heap_rest = refl;
        heap_large = not-ltb _ _ heap_ok;
        all = record { value = a; provenance = calculated };
        all_sum = refl;
        all_fits = not-ltb _ _ all_ok;
      })

  -- A calculation that succeeds has read the flags, and returns for their regions (scaled, under the
  -- low profile) regions that fit: nothing that was set is changed, what was not set is calculated,
  -- the fixed, the non-heap and all regions are within the total memory as int64 sums, and the heap
  -- is at least the least heap of a JVM.
  pub calculate-IsFit :
      (shellwords : Text → Option (List Text)) (c : Calculator) (flags : Text) {o : Output F}
      → calculate fl shellwords c flags ≡ ok o
      → (m : MemoryRegions F) × (new_memory_regions_from_flags shellwords (fl.of_int (pos 1)) flags
          ≡ ok m)
        × IsFit c (low_profile_regions fl c m).0 (low_profile_regions fl c m).1 o
  unfolding calculate
  calculate-IsFit shellwords c flags {o} h =
      let (m, read, sized) =
        >>=-eq-ok (new_memory_regions_from_flags shellwords (fl.of_int (pos 1)) flags)
          (λ m. size_regions fl c (low_profile_regions fl c m)) h in
      (
        m,
        read,
        size_regions-IsFit c (low_profile_regions fl c m).0 (low_profile_regions fl c m).1 sized,
      )
