-- ===== src/Calc/Calculator/Exact.antt =====
-- The calculation on natural numbers of bytes, where no sum overflows.
use jvm_vendors.Base.{
  ℕ, ◌+◌, ◌-◌, ◌<◌, ◌≤◌, ◌^◌, ◌≡◌, ◌↔◌, refl, sym, ◌∙◌, ap, Option, none, some, List, arith,
}
use jvm_vendors.Base.Int.{ℤ, pos, sub64}
use jvm_vendors.Base.Int.Words.{sub64_pos}
use jvm_vendors.Base.Float.{Float64}
use jvm_vendors.Base.Result.{ok}
use jvm_vendors.Base.Text.{Text}
use jvm_vendors.Calc.Size.{Size, min_heap_size}
use jvm_vendors.Calc.Regions.{
  MemoryRegions, sum, new_memory_regions_from_flags, fixed_regions_size, non_heap_regions_size,
  all_regions_size,
}
use jvm_vendors.Calc.Regions.Sums.{Naturals, fixed_bytes, fixed_regions_size_exact}
use jvm_vendors.Calc.Calculator.{
  Calculator, ThreadCount, Output, head_room_of, set_if_unset, size_regions, with_metaspace,
  with_head_room, with_heap, fit_fixed, fit_non_heap, fit_all, low_profile_regions, calculate,
  apply_low_profile_scaling,
}
use jvm_vendors.Calc.Calculator.Fits.{size_regions-IsFit}
use jvm_vendors.Calc.Calculator.Bytes.{non_heap_exact, all_exact, IsFit-heap}

module _ {F : Type 0} (fl : Float64 F) where
  -- A stage whose sum is within the total hands on to the next.
  fit_fixed_within :
      (c : Calculator) (m : MemoryRegions F) (t : ThreadCount) (n total : ℕ)
      → fixed_regions_size m t.value ≡ ok (sum (pos n))
      → c.total_memory.value ≡ pos total
      → n ≤ total
      → fit_fixed fl c m t ≡ fit_non_heap fl c (with_head_room fl c m) t
  unfolding fit_fixed
  fit_fixed_within c m t n total e total_is h = rw (e, total_is) (ground arith)

  fit_non_heap_within :
      (c : Calculator) (m : MemoryRegions F) (t : ThreadCount) (n total : ℕ)
      → non_heap_regions_size m t.value ≡ ok (sum (pos n))
      → c.total_memory.value ≡ pos total
      → n ≤ total
      → fit_non_heap fl c m t ≡ fit_all fl c (with_heap fl c m (pos n)) t
  unfolding fit_non_heap
  fit_non_heap_within c m t n total e total_is h = rw (e, total_is) (ground arith)

  fit_all_within :
      (c : Calculator) (m : MemoryRegions F) (t : ThreadCount) (n total p : ℕ) {y : Size}
      → all_regions_size m t.value ≡ ok (sum (pos n))
      → c.total_memory.value ≡ pos total
      → n ≤ total
      → m.heap ≡ some y
      → y.value ≡ pos p
      → min_heap_size ≤ p
      → fit_all fl c m t ≡ ok (record { memory = m; thread_count = t })
  unfolding fit_all
  fit_all_within c m t n total p e total_is h set is large = rw e (ground arith)

  -- The amounts of the regions do not depend on the head room and the heap.
  abbrev with_rest :
      {m : MemoryRegions F} {k : ℤ}
      → Naturals m k
      → (r y : Option Size) → Naturals (record m { head_room = r; heap = y }) k
  with_rest a r y = record {
    direct = a.direct;
    classes = a.classes;
    code = a.code;
    stack = a.stack;
    threads = a.threads;
    metaspace = a.metaspace;
    direct_is = a.direct_is;
    metaspace_set = a.metaspace_set;
    classes_is = a.classes_is;
    code_is = a.code_is;
    stack_is = a.stack_is;
    threads_is = a.threads_is;
  }

  size_regions_large :
      (c : Calculator) (m : MemoryRegions F) (t : ThreadCount) (total h : ℕ)
      → (a : Naturals (with_metaspace fl c m) t.value) → c.total_memory.value ≡ pos total
      → total < 2 ^ 63
      → head_room_of fl c ≡ pos h
      → m.heap ≡ none
      → fixed_bytes a + h + min_heap_size ≤ total
      → (o : Output F) × (size_regions fl c (m, t) ≡ ok o)
  unfolding with_metaspace with_head_room with_heap size_regions set_if_unset
  size_regions_large c m t total h a total_is small head_is unset room =
      let with_classes = with_metaspace fl c m in
      let with_head = with_head_room fl c with_classes in
      let non_heap = fixed_bytes a + h in
      let with_all = with_heap fl c with_head (pos non_heap) in
      let left : sub64 c.total_memory.value (pos non_heap) ≡ pos (total - non_heap) =
        rw total_is (sub64_pos total non_heap (omega arith) small) in
      let heap_is : (set_if_unset m.heap (sub64 c.total_memory.value (pos non_heap))).value
          ≡ pos (total - non_heap) =
        rw unset left in
      (
        record { memory = with_all; thread_count = t },
        fit_fixed_within c with_classes t (fixed_bytes a) total
              (fixed_regions_size_exact with_classes t.value a (omega arith)) total_is (omega arith)
            ∙ fit_non_heap_within c with_head t non_heap total
                (non_heap_exact with_head t.value (with_rest a with_head.head_room with_head.heap) h
                  refl head_is (omega arith))
                total_is (omega arith)
            ∙ fit_all_within c with_all t (non_heap + (total - non_heap)) total (total - non_heap)
                (all_exact with_all t.value (with_rest a with_all.head_room with_all.heap) h
                  (total - non_heap) refl head_is refl heap_is (omega arith))
                total_is (omega arith) refl heap_is (omega arith),
      )

  size_regions_room :
      (c : Calculator) (m : MemoryRegions F) (t : ThreadCount) (total h : ℕ) {o : Output F}
      → (a : Naturals (with_metaspace fl c m) t.value) → c.total_memory.value ≡ pos total
      → total < 2 ^ 63
      → head_room_of fl c ≡ pos h
      → m.heap ≡ none
      → fixed_bytes a + h < 2 ^ 63
      → size_regions fl c (m, t) ≡ ok o
      → fixed_bytes a + h + min_heap_size ≤ total
  unfolding with_metaspace
  size_regions_room c m t total h {o} a total_is small head_is unset fits e =
      let fit = size_regions-IsFit fl c m t e in
      let b : Naturals o.memory t.value = record {
        direct = a.direct;
        classes = a.classes;
        code = a.code;
        stack = a.stack;
        threads = a.threads;
        metaspace = a.metaspace;
        direct_is = ap (λ z. z.value) fit.direct_memory ∙ a.direct_is;
        metaspace_set = fit.metaspace ∙ a.metaspace_set;
        classes_is = a.classes_is;
        code_is = ap (λ z. z.value) fit.reserved_code_cache ∙ a.code_is;
        stack_is = ap (λ z. z.value) fit.stack ∙ a.stack_is;
        threads_is = a.threads_is;
      } in
      let (within, heap_is) =
        IsFit-heap fl c m t o total h fit b total_is small head_is unset fits in
      ground (arith, heap_is, within, fit.heap_large)

  -- Scaling sets no heap.
  heap-low_profile_regions :
      (c : Calculator) (m : MemoryRegions F) → (low_profile_regions fl c m).0.heap ≡ m.heap
  unfolding low_profile_regions apply_low_profile_scaling
  heap-low_profile_regions c m = ground arith

  calculate-size_regions :
      (shellwords : Text → Option (List Text)) (c : Calculator) (flags : Text) {m : MemoryRegions F}
      → new_memory_regions_from_flags shellwords (fl.of_int (pos 1)) flags ≡ ok m
      → calculate fl shellwords c flags ≡ size_regions fl c (low_profile_regions fl c m)
  unfolding calculate
  calculate-size_regions shellwords c flags read = rw read

  -- With no heap set and no sum that overflows, the calculation for the regions of the flags (scaled,
  -- under the low profile) succeeds exactly if the total memory has room for the fixed regions, the
  -- head room and the least heap of a JVM.
  pub calculate_iff :
      (shellwords : Text → Option (List Text)) (c : Calculator) (flags : Text) (m : MemoryRegions F)
      → new_memory_regions_from_flags shellwords (fl.of_int (pos 1)) flags ≡ ok m
      → (total h : ℕ)
      → (a : Naturals
          (with_metaspace fl c (low_profile_regions fl c m).0)
          (low_profile_regions fl c m).1.value)
      → c.total_memory.value ≡ pos total
      → total < 2 ^ 63
      → head_room_of fl c ≡ pos h
      → m.heap ≡ none
      → fixed_bytes a + h < 2 ^ 63
      → ((o : Output F) × (calculate fl shellwords c flags ≡ ok o))
        ↔ (fixed_bytes a + h + min_heap_size ≤ total)
  calculate_iff shellwords c flags m read total h a total_is small head_is unset fits =
      let (m', t) = low_profile_regions fl c m in
      let same = calculate-size_regions shellwords c flags read in
      let unset' = heap-low_profile_regions c m ∙ unset in
      (
        (λ r.
            size_regions_room c m' t total h a total_is small head_is unset' fits (sym same ∙ r.1)),
        λ room.
            let (o, e) = size_regions_large c m' t total h a total_is small head_is unset' room in
            (o, same ∙ e),
      )
