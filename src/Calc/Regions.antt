-- ===== src/Calc/Regions.antt =====
-- calc/memory_regions.go: the memory regions of a JVM, their sums and their prints, and the regions
-- that JVM flags configure.
pub mod Settings
pub mod Sums
pub mod RoundTrip
use jvm_vendors.Base.{ℕ, ◌≡◌, Bool, Option, none, some, List, [], ◌∷◌, ◌++◌, if◌then◌else◌}
use jvm_vendors.Base.Int.{ℤ, pos, add64, mul64}
use jvm_vendors.Base.Float.{Float64}
use jvm_vendors.Base.Result.{Result, ok, err, ◌>>=◌, map_err}
use jvm_vendors.Base.Text.{Text, codes, join}
use jvm_vendors.Base.Text.Decimal.{decimal_ℤ}
use jvm_vendors.Calc.Size.{Size, user_configured, calculated}
use jvm_vendors.Calc.Flags.{
  FlagError, match_direct_memory, parse_direct_memory, direct_memory_string, default_direct_memory,
  match_heap, parse_heap, heap_string, match_metaspace, parse_metaspace, metaspace_string,
  match_reserved_code_cache, parse_reserved_code_cache, reserved_code_cache_string,
  default_reserved_code_cache, match_stack, parse_stack, stack_string, default_stack,
  head_room_string,
}

-- The pointers of the source are options.
pub record MemoryRegions (F : Type 0) : Type 0 where
  pub direct_memory : Size
  pub head_room : Option Size
  pub heap : Option Size
  pub metaspace : Option Size
  pub reserved_code_cache : Size
  pub stack : Size
  pub scaling_factor : F

-- The errors of the package. `nil_heap` is the panic on a nil heap. The three refusals carry the
-- size that is required, the total, and the print of the regions.
pub data CalcError : Type 0 where
  unparsable_flags without_metaspace without_head_room nil_heap : CalcError
  bad_direct_memory bad_heap bad_metaspace bad_code_cache bad_stack : FlagError → CalcError
  fixed_exceeds non_heap_exceeds all_exceeds : ℤ → ℤ → Text → CalcError
  heap_too_small : ℤ → CalcError

abbrev configured : Size → Size
configured z = record z { provenance = user_configured }

abbrev pub sum : ℤ → Size
sum n = record { value = n; provenance = calculated }

-- The test is on the head room, and the heap is read without a test.
add_heap : Option Size → Size → Result CalcError Size
add_heap none s = err nil_heap
add_heap (some heap) s = ok (sum (add64 s.value heap.value))

abbrev print_option : (Size → Text) → Option Size → List Text
print_option print none = []
print_option print (some z) = print z ∷ []

module _ {F : Type 0} where
  -- One round of the loop over the flags.
  unfoldable pub apply_flag : MemoryRegions F → Text → Result CalcError (MemoryRegions F)
  apply_flag m f =
      if match_direct_memory f
      then (do
        z ← map_err bad_direct_memory (parse_direct_memory f)
        ok (record m { direct_memory = configured z }))
      else if match_heap f
      then (do z ← map_err bad_heap (parse_heap f); ok (record m { heap = some (configured z) }))
      else if match_metaspace f
      then (do
        z ← map_err bad_metaspace (parse_metaspace f)
        ok (record m { metaspace = some (configured z) }))
      else if match_reserved_code_cache f
      then (do
        z ← map_err bad_code_cache (parse_reserved_code_cache f)
        ok (record m { reserved_code_cache = configured z }))
      else if match_stack f
      then (do z ← map_err bad_stack (parse_stack f); ok (record m { stack = configured z }))
      else ok m

  unfoldable pub apply_flags : MemoryRegions F → List Text → Result CalcError (MemoryRegions F)
  apply_flags m [] = ok m
  apply_flags m (f ∷ fs) = do m' ← apply_flag m f; apply_flags m' fs

  -- The regions before any flag is read; `one` is the float 1.0.
  abbrev pub default_regions : F → MemoryRegions F
  default_regions one = record {
    direct_memory = default_direct_memory;
    head_room = none;
    heap = none;
    metaspace = none;
    reserved_code_cache = default_reserved_code_cache;
    stack = default_stack;
    scaling_factor = one;
  }

  -- `shellwords` splits the text of the flags into words, or fails.
  from_words : F → Option (List Text) → Result CalcError (MemoryRegions F)
  from_words one none = err unparsable_flags
  from_words one (some words) = apply_flags (default_regions one) words

  unfoldable pub new_memory_regions_from_flags :
      (Text → Option (List Text)) → F → Text → Result CalcError (MemoryRegions F)
  unfolding from_words
  new_memory_regions_from_flags shellwords one flags = from_words one (shellwords flags)

  unfoldable pub fixed_regions_size : MemoryRegions F → ℤ → Result CalcError Size
  fixed_regions_size m thread_count = elim m.metaspace [
    | none ↦ err without_metaspace
    | some metaspace ↦ ok (
        sum (
          add64 (add64 (add64 m.direct_memory.value metaspace.value) m.reserved_code_cache.value)
            (mul64 m.stack.value thread_count)))
  ]

  unfoldable pub non_heap_regions_size : MemoryRegions F → ℤ → Result CalcError Size
  non_heap_regions_size m thread_count = elim m.head_room [
    | none ↦ err without_head_room
    | some head_room ↦
        fixed_regions_size m thread_count >>= λ s. ok (sum (add64 s.value head_room.value))
  ]

  unfoldable pub all_regions_size : MemoryRegions F → ℤ → Result CalcError Size
  unfolding add_heap
  all_regions_size m thread_count = elim m.head_room [
    | none ↦ err without_head_room
    | some _ ↦ do s ← non_heap_regions_size m thread_count; add_heap m.heap s
  ]

  unfoldable pub fixed_regions_string : MemoryRegions F → ℤ → Text
  fixed_regions_string m thread_count =
      join
        ((direct_memory_string m.direct_memory ∷ print_option metaspace_string m.metaspace)
          ++ reserved_code_cache_string m.reserved_code_cache
            ∷ (stack_string m.stack
                ++ (codes " * " ++ (decimal_ℤ thread_count ++ codes " threads")))
            ∷ [])
        (codes ", ")

  unfoldable pub non_heap_regions_string : MemoryRegions F → ℤ → Text
  non_heap_regions_string m thread_count =
      join
        (print_option (λ h. head_room_string h ++ codes " headroom") m.head_room
          ++ fixed_regions_string m thread_count ∷ [])
        (codes ", ")

  -- `none` is the panic: with a head room, the heap is printed without a test.
  unfoldable pub all_regions_string : MemoryRegions F → ℤ → Option Text
  all_regions_string m thread_count = elim m.head_room [
    | none ↦ some (join (non_heap_regions_string m thread_count ∷ []) (codes ", "))
    | some _ ↦ elim m.heap [
      | none ↦ none
      | some heap ↦
          some (join (heap_string heap ∷ non_heap_regions_string m thread_count ∷ []) (codes ", "))
    ]
  ]
