-- ===== src/Calc/Regions/Sums.antt =====
-- The sums of the memory regions: exact where nothing overflows, and where they go wrong.
use jvm_vendors.Base.{ℕ, ◌+◌, ◌*◌, ◌<◌, ◌^◌, ◌≡◌, ◌∙◌, some, arith}
use jvm_vendors.Base.Int.{ℤ, pos, mul64, wrap64}
use jvm_vendors.Base.Int.Words.{add64_pos, mul64_pos, mul64_wraps}
use jvm_vendors.Base.Result.{ok}
use jvm_vendors.Calc.Size.{Size}
use jvm_vendors.Calc.Regions.{MemoryRegions, sum, fixed_regions_size}

lost : (s k j : ℕ) → s * k ≡ 2 ^ 64 * j → mul64 (pos s) (pos k) ≡ pos 0
unfolding wrap64
lost s k j h = mul64_wraps s k ∙ rw h (ground arith)

module _ {F : Type 0} where
  -- Regions with a metaspace, whose sizes are natural numbers, for a natural number of threads.
  pub record Naturals (m : MemoryRegions F) (thread_count : ℤ) : Type 0 where
    pub direct : ℕ
    pub classes : ℕ
    pub code : ℕ
    pub stack : ℕ
    pub threads : ℕ
    pub metaspace : Size
    pub direct_is : m.direct_memory.value ≡ pos direct
    pub metaspace_set : m.metaspace ≡ some metaspace
    pub classes_is : metaspace.value ≡ pos classes
    pub code_is : m.reserved_code_cache.value ≡ pos code
    pub stack_is : m.stack.value ≡ pos stack
    pub threads_is : thread_count ≡ pos threads

  -- The true number of bytes of the fixed regions.
  abbrev pub fixed_bytes : {m : MemoryRegions F} {k : ℤ} → Naturals m k → ℕ
  fixed_bytes a = a.direct + a.classes + a.code + a.stack * a.threads

  -- Where the fixed regions fit an int64, their sum is the true one.
  pub fixed_regions_size_exact :
      (m : MemoryRegions F) (k : ℤ) (a : Naturals m k)
      → fixed_bytes a < 2 ^ 63
      → fixed_regions_size m k ≡ ok (sum (pos (fixed_bytes a)))
  unfolding fixed_regions_size
  fixed_regions_size_exact m k a h = rw (
    a.metaspace_set,
    a.direct_is,
    a.classes_is,
    a.code_is,
    a.stack_is,
    a.threads_is,
    mul64_pos a.stack a.threads (omega arith),
    add64_pos a.direct a.classes (omega arith),
    add64_pos (a.direct + a.classes) a.code (omega arith),
    add64_pos (a.direct + a.classes + a.code) (a.stack * a.threads) (omega arith),
  )

  -- A stack size and a number of threads whose product is a multiple of 2^64 are counted as nothing:
  -- the sum is the one for a stack of size 0.
  pub fixed_regions_size_wraps :
      (m : MemoryRegions F) (s k j : ℕ)
      → m.stack.value ≡ pos s
      → s * k ≡ 2 ^ 64 * j
      → fixed_regions_size m (pos k)
        ≡ fixed_regions_size (record m { stack = record m.stack { value = pos 0 } }) (pos k)
  unfolding fixed_regions_size
  fixed_regions_size_wraps m s k j stack_is wraps =
      ground (arith, lost s k j wraps, mul64_pos 0 k (omega arith))
