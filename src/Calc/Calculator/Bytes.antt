-- ===== src/Calc/Calculator/Bytes.antt =====
-- The sums of the calculation in bytes, where none overflows.
use jvm_vendors.Base.{ℕ, ◌+◌, ◌-◌, ◌<◌, ◌≤◌, ◌^◌, ◌≡◌, sym, ◌∙◌, none, some, arith}
use jvm_vendors.Base.Int.{ℤ, pos}
use jvm_vendors.Base.Int.Words.{add64_pos, sub64_pos}
use jvm_vendors.Base.Float.{Float64}
use jvm_vendors.Base.Result.{ok, ok-injective}
use jvm_vendors.Calc.Size.{Size}
use jvm_vendors.Calc.Regions.{MemoryRegions, sum, non_heap_regions_size, all_regions_size}
use jvm_vendors.Calc.Regions.Sums.{Naturals, fixed_bytes, fixed_regions_size_exact}
use jvm_vendors.Calc.Calculator.{Calculator, ThreadCount, Output, head_room_of, set_if_unset}
use jvm_vendors.Calc.Calculator.Fits.{IsFit}

module _ {F : Type 0} where
  pub non_heap_exact :
      (m : MemoryRegions F) (k : ℤ) (a : Naturals m k) (h : ℕ) {z : Size}
      → m.head_room ≡ some z
      → z.value ≡ pos h
      → fixed_bytes a + h < 2 ^ 63
      → non_heap_regions_size m k ≡ ok (sum (pos (fixed_bytes a + h)))
  unfolding non_heap_regions_size
  non_heap_exact m k a h set is fits =
      ground (arith, fixed_regions_size_exact m k a (omega arith), add64_pos (fixed_bytes a) h fits)

  pub all_exact :
      (m : MemoryRegions F) (k : ℤ) (a : Naturals m k) (h p : ℕ) {z y : Size}
      → m.head_room ≡ some z
      → z.value ≡ pos h
      → m.heap ≡ some y
      → y.value ≡ pos p
      → fixed_bytes a + h + p < 2 ^ 63
      → all_regions_size m k ≡ ok (sum (pos (fixed_bytes a + h + p)))
  unfolding all_regions_size
  all_exact m k a h p set is heap_set heap_is fits =
      ground
        (arith, non_heap_exact m k a h set is (omega arith), add64_pos (fixed_bytes a + h) p fits)

module _ {F : Type 0} (fl : Float64 F) where
  -- Where no sum overflows, the regions of a successful outcome truly fit the total memory.
  pub IsFit-bytes :
      (c : Calculator) (m : MemoryRegions F) (t : ThreadCount) (o : Output F) (total h p : ℕ)
      → (fit : IsFit fl c m t o) → (a : Naturals o.memory t.value)
      → c.total_memory.value ≡ pos total
      → head_room_of fl c ≡ pos h
      → fit.heap.value ≡ pos p
      → fixed_bytes a + h + p < 2 ^ 63
      → fixed_bytes a + h + p ≤ total
  IsFit-bytes c m t o total h p fit a total_is head_is heap_is fits =
      let exact =
        all_exact o.memory t.value a h p fit.head_room head_is fit.heap_set heap_is fits in
      let same : fit.all ≡ sum (pos (fixed_bytes a + h + p)) =
        ok-injective (sym fit.all_sum ∙ exact) in
      ground (arith, same, total_is, fit.all_fits)

  -- With no heap set, the heap is all that the other regions leave of the total memory.
  pub IsFit-heap :
      (c : Calculator) (m : MemoryRegions F) (t : ThreadCount) (o : Output F) (total h : ℕ)
      → (fit : IsFit fl c m t o) → (a : Naturals o.memory t.value)
      → c.total_memory.value ≡ pos total
      → total < 2 ^ 63
      → head_room_of fl c ≡ pos h
      → m.heap ≡ none
      → fixed_bytes a + h < 2 ^ 63
      → (fixed_bytes a + h ≤ total) × (fit.heap.value ≡ pos (total - (fixed_bytes a + h)))
  unfolding set_if_unset
  IsFit-heap c m t o total h fit a total_is small head_is unset fits =
      let exact = non_heap_exact o.memory t.value a h fit.head_room head_is fits in
      let same : fit.non_heap ≡ sum (pos (fixed_bytes a + h)) =
        ok-injective (sym fit.non_heap_sum ∙ exact) in
      let within : fixed_bytes a + h ≤ total = ground (arith, same, total_is, fit.non_heap_fits) in
      (
        within,
        ground (
          arith,
          same,
          fit.heap_rest,
          unset,
          total_is,
          sub64_pos total (fixed_bytes a + h) within small,
        ),
      )
