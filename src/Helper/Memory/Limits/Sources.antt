-- ===== src/Helper/Memory/Limits/Sources.antt =====
-- Which file gives the total memory, and its bound.
use jvm_vendors.Base.{◌≡◌, Option, none, some, List, [], ◌∷◌, if◌then◌else◌, arith}
use jvm_vendors.Base.Int.{ℤ, pos, negsuc, eqb_ℤ, ltb_ℤ, ◌≤ℤ◌}
use jvm_vendors.Calc.Size.{gibi}
use jvm_vendors.Helper.Memory.Limits.{
  LimitFiles, total_memory, found_memory, memory_limit_from_path, available_memory,
  unset_total_memory, max_jvm_size,
}

-- The first of some sources that is not the sentinel of an unset limit.
unfoldable pub first_set : List ℤ → Option ℤ
first_set [] = none
first_set (n ∷ ns) = if eqb_ℤ n unset_total_memory then first_set ns else some n

-- No more than the largest memory of a JVM; 1G without a limit.
unfoldable pub bounded : Option ℤ → ℤ
bounded none = pos gibi
bounded (some n) = if ltb_ℤ (pos max_jvm_size) n then pos max_jvm_size else n

bounded-≤ : (o : Option ℤ) → bounded o ≤ℤ pos max_jvm_size
unfolding bounded
bounded-≤ none = omega arith
bounded-≤ (some (pos n)) = ground arith
bounded-≤ (some (negsuc n)) = ground arith

total_memory-sources :
    (files : LimitFiles)
    → total_memory files
      ≡ bounded (
          first_set (
            memory_limit_from_path files.v1
            ∷ memory_limit_from_path files.v2
            ∷ available_memory files.mem_info
            ∷ []))
unfolding total_memory found_memory bounded first_set
total_memory-sources files = ground arith

-- The total memory is the first limit that is set, in the order control groups v1, control groups v2,
-- available memory; it is cut to 64T, and is 1G if none is set. It is at most 64T in any case.
pub total_memory-first_set :
    (files : LimitFiles)
    → (total_memory files
        ≡ bounded (
            first_set (
              memory_limit_from_path files.v1
              ∷ memory_limit_from_path files.v2
              ∷ available_memory files.mem_info
              ∷ [])))
      × (total_memory files ≤ℤ pos max_jvm_size)
total_memory-first_set files =
    let e = total_memory-sources files in (e, rw e (bounded-≤ (first_set _)))
