-- ===== src/Calc/Calculator/Scaling.antt =====
-- The low memory profile: what the user configured stays, the rest keeps a lower bound.
use jvm_vendors.Base.{◌≡◌, ◌≢◌, refl, arith}
use jvm_vendors.Base.Int.{pos, ◌≤ℤ◌}
use jvm_vendors.Base.Float.{Float64}
use jvm_vendors.Calc.Size.{user_configured, min_stack_size, min_code_cache_size, min_thread_count}
use jvm_vendors.Calc.Regions.{MemoryRegions}
use jvm_vendors.Calc.Calculator.{Calculator, ThreadCount, at_least, apply_low_profile_scaling}

module _ {F : Type 0} (fl : Float64 F) where
  -- `m` and `t` before, `m'` and `t'` after the scaling.
  pub record IsScaled (m m' : MemoryRegions F) (t t' : ThreadCount) : Type 0 where
    pub user_stack : m.stack.provenance ≡ user_configured → m'.stack ≡ m.stack
    pub other_stack : m.stack.provenance ≢ user_configured → pos min_stack_size ≤ℤ m'.stack.value
    pub user_code_cache :
        m.reserved_code_cache.provenance ≡ user_configured
        → m'.reserved_code_cache ≡ m.reserved_code_cache
    pub other_code_cache :
        m.reserved_code_cache.provenance ≢ user_configured
        → pos min_code_cache_size ≤ℤ m'.reserved_code_cache.value
    pub user_threads : t.provenance ≡ user_configured → t' ≡ t
    pub other_threads : t.provenance ≢ user_configured → pos min_thread_count ≤ℤ t'.value
    pub direct_memory : m'.direct_memory ≡ m.direct_memory
    pub heap : m'.heap ≡ m.heap
    pub metaspace : m'.metaspace ≡ m.metaspace
    pub head_room : m'.head_room ≡ m.head_room

  -- Whatever the float arithmetic returns, scaling leaves what the user configured and the other
  -- regions alone, and the stack, the code cache and the number of threads that it sets are at least
  -- their minima.
  pub apply_low_profile_scaling-IsScaled :
      (c : Calculator) (m : MemoryRegions F) (t : ThreadCount)
      → IsScaled m
          (apply_low_profile_scaling fl c (m, t)).0
          t
          (apply_low_profile_scaling fl c (m, t)).1
  unfolding apply_low_profile_scaling at_least
  apply_low_profile_scaling-IsScaled c m t = record {
    user_stack = λ h. ground arith;
    other_stack = λ h. ground arith;
    user_code_cache = λ h. ground arith;
    other_code_cache = λ h. ground arith;
    user_threads = λ h. ground arith;
    other_threads = λ h. ground arith;
    direct_memory = refl;
    heap = refl;
    metaspace = refl;
    head_room = refl;
  }
