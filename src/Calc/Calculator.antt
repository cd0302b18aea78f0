-- ===== src/Calc/Calculator.antt =====
-- calc/calculator.go and calc/thread_count.go: the sizes of all memory regions for a total memory.
pub mod Fits
mod Bytes
pub mod Exact
pub mod Scaling
pub mod Errors
use jvm_vendors.Base.{ℕ, ◌*◌, ◌≡◌, Bool, true, false, Option, none, some, List, if◌then◌else◌}
use jvm_vendors.Base.Int.{ℤ, pos, add64, mul64, sub64, ltb_ℤ}
use jvm_vendors.Base.Float.{Float64}
use jvm_vendors.Base.Result.{Result, ok, err, ◌>>=◌}
use jvm_vendors.Base.Text.{Text, codes}
use jvm_vendors.Calc.Size.{
  Size, Provenance, default, unknown, user_configured, calculated, low_profile_threshold,
  min_stack_size, min_code_cache_size, min_thread_count, min_heap_size,
}
use jvm_vendors.Calc.Flags.{default_stack, default_reserved_code_cache}
use jvm_vendors.Calc.Regions.{
  MemoryRegions, CalcError, nil_heap, fixed_exceeds, non_heap_exceeds, all_exceeds, heap_too_small,
  new_memory_regions_from_flags, fixed_regions_size, non_heap_regions_size, all_regions_size,
  fixed_regions_string, non_heap_regions_string, all_regions_string,
}

abbrev pub class_size : ℤ
class_size = pos 5800

abbrev pub class_overhead : ℤ
class_overhead = pos 14000000

abbrev pub default_thread_count : ℕ
default_thread_count = 250

pub record ThreadCount : Type 0 where
  pub value : ℤ
  pub provenance : Provenance

abbrev pub default_thread_count_value : ThreadCount
default_thread_count_value = record { value = pos default_thread_count; provenance = default }

pub record Calculator : Type 0 where
  pub head_room : ℤ
  pub loaded_class_count : ℤ
  pub low_profile : Bool
  pub thread_count : ThreadCount
  pub total_memory : Size

pub record Output (F : Type 0) : Type 0 where
  pub memory : MemoryRegions F
  pub thread_count : ThreadCount

abbrev pub is_user_configured : Provenance → Bool
is_user_configured user_configured = true
is_user_configured _ = false

-- The scaled default, but no less than the minimum.
unfoldable pub at_least : ℕ → ℤ → ℤ
at_least low n = if ltb_ℤ n (pos low) then pos low else n

unfoldable pub set_if_unset : Option Size → ℤ → Size
set_if_unset none n = record { value = n; provenance = calculated }
set_if_unset (some z) n = z

module _ {F : Type 0} (fl : Float64 F) where
  open fl use {of_int, mul, div, to_int}

  scaled : ℤ → F → ℤ
  scaled n factor = to_int (mul (of_int n) factor)

  unfoldable pub apply_low_profile_scaling :
      Calculator → MemoryRegions F × ThreadCount → MemoryRegions F × ThreadCount
  unfolding scaled
  apply_low_profile_scaling c (m, t) =
      let factor = div (of_int c.total_memory.value) (of_int (pos low_profile_threshold)) in
      (
        record m {
          scaling_factor = factor;
          stack = if is_user_configured m.stack.provenance then m.stack else record {
            value = at_least min_stack_size (scaled default_stack.value factor);
            provenance = calculated;
          };
          reserved_code_cache =
              if is_user_configured m.reserved_code_cache.provenance
              then m.reserved_code_cache
              else record {
                value =
                    at_least min_code_cache_size (scaled default_reserved_code_cache.value factor);
                provenance = calculated;
              };
        },
        if is_user_configured t.provenance then t else record t {
          value = at_least min_thread_count (scaled (pos default_thread_count) factor);
        },
      )

  unfoldable pub head_room_of : Calculator → ℤ
  head_room_of c =
      to_int (mul (div (of_int c.head_room) (of_int (pos 100))) (of_int c.total_memory.value))

  -- From the metaspace on: each step sets one region and compares the sum so far with the total.
  unfoldable pub with_metaspace : Calculator → MemoryRegions F → MemoryRegions F
  with_metaspace c m = record m {
    metaspace =
        some
          (set_if_unset m.metaspace (add64 class_overhead (mul64 class_size c.loaded_class_count)));
  }

  unfoldable pub with_head_room : Calculator → MemoryRegions F → MemoryRegions F
  unfolding head_room_of
  with_head_room c m = record m {
    head_room = some (record { value = head_room_of c; provenance = calculated });
  }

  unfoldable pub with_heap : Calculator → MemoryRegions F → ℤ → MemoryRegions F
  with_heap c m non_heap = record m {
    heap = some (set_if_unset m.heap (sub64 c.total_memory.value non_heap));
  }

  -- The message of the last comparison prints all regions, the heap without a test for nil.
  exceeds : ℤ → ℤ → Option Text → CalcError
  exceeds n total none = nil_heap
  exceeds n total (some breakdown) = all_exceeds n total breakdown

  large_enough : MemoryRegions F → ThreadCount → Result CalcError (Output F)
  large_enough m t = elim m.heap [
    | none ↦ err nil_heap
    | some heap ↦
        if ltb_ℤ heap.value (pos min_heap_size)
        then err (heap_too_small heap.value)
        else ok (record { memory = m; thread_count = t })
  ]

  -- The comparison of all regions, and the least heap.
  fit_all : Calculator → MemoryRegions F → ThreadCount → Result CalcError (Output F)
  unfolding exceeds large_enough
  fit_all c m t = all_regions_size m t.value >>= λ a.
      if ltb_ℤ c.total_memory.value a.value
      then err (exceeds a.value c.total_memory.value (all_regions_string m t.value))
      else large_enough m t

  -- The comparison without the heap, and the heap from what is left.
  fit_non_heap : Calculator → MemoryRegions F → ThreadCount → Result CalcError (Output F)
  unfolding with_heap
  fit_non_heap c m t = non_heap_regions_size m t.value >>= λ n.
      if ltb_ℤ c.total_memory.value n.value
      then err (non_heap_exceeds n.value c.total_memory.value (non_heap_regions_string m t.value))
      else fit_all c (with_heap c m n.value) t

  -- The comparison of the fixed regions, and the head room.
  fit_fixed : Calculator → MemoryRegions F → ThreadCount → Result CalcError (Output F)
  unfolding with_head_room
  fit_fixed c m t = fixed_regions_size m t.value >>= λ f.
      if ltb_ℤ c.total_memory.value f.value
      then err (fixed_exceeds f.value c.total_memory.value (fixed_regions_string m t.value))
      else fit_non_heap c (with_head_room c m) t

  pub size_regions : Calculator → MemoryRegions F × ThreadCount → Result CalcError (Output F)
  unfolding with_metaspace fit_fixed
  size_regions c (m, t) = fit_fixed c (with_metaspace c m) t

  unfoldable pub low_profile_regions : Calculator → MemoryRegions F → MemoryRegions F × ThreadCount
  low_profile_regions c m =
      if c.low_profile then apply_low_profile_scaling c (m, c.thread_count) else (m, c.thread_count)

  unfoldable pub calculate :
      (Text → Option (List Text)) → Calculator → Text → Result CalcError (Output F)
  unfolding size_regions fit_non_heap fit_all low_profile_regions
  calculate shellwords c flags =
      new_memory_regions_from_flags shellwords (of_int (pos 1)) flags >>= λ m.
      size_regions c (low_profile_regions c m)
