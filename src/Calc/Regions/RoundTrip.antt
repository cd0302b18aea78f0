-- ===== src/Calc/Regions/RoundTrip.antt =====
-- Regions that are printed as flags are read back.
use jvm_vendors.Base.{
  ℕ, ◌*◌, ◌/◌, ◌<◌, ◌^◌, ◌≡◌, refl, ap, ◌∙◌, Bool, true, false, not, ◌&&◌, &&_right, arith, some,
  List, [], ◌∷◌, ◌++◌, All,
}
use jvm_vendors.Base.Int.{pos}
use jvm_vendors.Base.Result.{ok, ◌>>=◌}
use jvm_vendors.Base.Text.{Text, is_space}
use jvm_vendors.Calc.Size.{Size, unknown, user_configured, kibi, size_string}
use jvm_vendors.Calc.Size.RoundTrip.{NotSpace}
use jvm_vendors.Calc.Flags.{
  direct_memory_prefix, heap_prefix, metaspace_prefix, reserved_code_cache_prefix, stack_prefix,
  match_direct_memory, parse_direct_memory, match_heap, parse_heap, match_metaspace,
  parse_metaspace, match_reserved_code_cache, parse_reserved_code_cache, match_stack, parse_stack,
  match_flag, parse_flag, direct_memory_string, heap_string, metaspace_string,
  reserved_code_cache_string, stack_string,
}
use jvm_vendors.Calc.Flags.Reading.{clash, match_flag-clash, flag-size_string}
use jvm_vendors.Calc.Regions.{MemoryRegions, apply_flag, apply_flags}

-- A size in whole kibibytes, as a flag sets it.
abbrev pub read_back : ℕ → Size
read_back n = record { value = pos (n / kibi * kibi); provenance = user_configured }

has_no_space : Text → Bool
has_no_space [] = true
has_no_space (c ∷ s) = not (is_space c) && has_no_space s

All-has_no_space : (s : Text) → has_no_space s ≡ true → All NotSpace s
unfolding has_no_space
All-has_no_space [] h = tt
All-has_no_space (c ∷ s) h = (ground arith, All-has_no_space s (&&_right (not (is_space c)) _ h))

module _ (n : ℕ) (h : n < 2 ^ 63) where
  -- A printed flag is recognised for its region and for none that clashes with it.
  read_printed :
      (p : Text)
      → has_no_space p ≡ true
      → (match_flag p (p ++ size_string (pos n)) ≡ true)
        × (parse_flag p (p ++ size_string (pos n))
            ≡ ok (record { value = pos (n / kibi * kibi); provenance = unknown }))
  read_printed p e = flag-size_string p n (All-has_no_space p e) h

  clashing :
      (p q : Text)
      → has_no_space p ≡ true
      → clash p q ≡ true
      → match_flag q (p ++ size_string (pos n)) ≡ false
  clashing p q e c = match_flag-clash p q (p ++ size_string (pos n)) c (read_printed p e).0

module _ {F : Type 0} (m : MemoryRegions F) (z : Size) (n : ℕ) (h : n < 2 ^ 63) where
  abbrev sized : Size
  sized = record z { value = pos n }

  pub apply_flag-direct_memory :
      apply_flag m (direct_memory_string sized) ≡ ok (record m { direct_memory = read_back n })
  unfolding apply_flag has_no_space clash is_space direct_memory_string match_direct_memory
      parse_direct_memory
  apply_flag-direct_memory =
      let (found, read) = read_printed n h direct_memory_prefix refl in rw (found, read) refl

  pub apply_flag-heap :
      apply_flag m (heap_string sized) ≡ ok (record m { heap = some (read_back n) })
  unfolding apply_flag has_no_space clash is_space heap_string match_direct_memory match_heap
      parse_heap
  apply_flag-heap =
      let (found, read) = read_printed n h heap_prefix refl in
      rw (clashing n h heap_prefix direct_memory_prefix refl refl, found, read) refl

  pub apply_flag-metaspace :
      apply_flag m (metaspace_string sized) ≡ ok (record m { metaspace = some (read_back n) })
  unfolding apply_flag has_no_space clash is_space metaspace_string match_direct_memory match_heap
      match_metaspace parse_metaspace
  apply_flag-metaspace =
      let (found, read) = read_printed n h metaspace_prefix refl in
      rw
        (
          clashing n h metaspace_prefix direct_memory_prefix refl refl,
          clashing n h metaspace_prefix heap_prefix refl refl,
          found,
          read,
        )
        refl

  pub apply_flag-reserved_code_cache :
      apply_flag m (reserved_code_cache_string sized)
      ≡ ok (record m { reserved_code_cache = read_back n })
  unfolding apply_flag has_no_space clash is_space reserved_code_cache_string match_direct_memory
      match_heap match_metaspace match_reserved_code_cache parse_reserved_code_cache
  apply_flag-reserved_code_cache =
      let (found, read) = read_printed n h reserved_code_cache_prefix refl in
      rw
        (
          clashing n h reserved_code_cache_prefix direct_memory_prefix refl refl,
          clashing n h reserved_code_cache_prefix heap_prefix refl refl,
          clashing n h reserved_code_cache_prefix metaspace_prefix refl refl,
          found,
          read,
        )
        refl

  pub apply_flag-stack : apply_flag m (stack_string sized) ≡ ok (record m { stack = read_back n })
  unfolding apply_flag has_no_space clash is_space stack_string match_direct_memory match_heap
      match_metaspace match_reserved_code_cache match_stack parse_stack
  apply_flag-stack =
      let (found, read) = read_printed n h stack_prefix refl in
      rw
        (
          clashing n h stack_prefix direct_memory_prefix refl refl,
          clashing n h stack_prefix heap_prefix refl refl,
          clashing n h stack_prefix metaspace_prefix refl refl,
          clashing n h stack_prefix reserved_code_cache_prefix refl refl,
          found,
          read,
        )
        refl

pub step :
    {F : Type 0} (m : MemoryRegions F) {m' : MemoryRegions F} (f : Text) (fs : List Text)
    → apply_flag m f ≡ ok m'
    → apply_flags m (f ∷ fs) ≡ apply_flags m' fs
unfolding apply_flags
step m f fs e = ap (λ r. r >>= λ m'. apply_flags m' fs) e

-- Regions below 2^63 bytes that are printed as flags are read back, whatever the regions were before:
-- each has its size, rounded down to whole kibibytes, as one that the user has set.
pub apply_flags-printed :
    {F : Type 0} (m : MemoryRegions F) (d h p r t : ℕ) (z : Size)
    → d < 2 ^ 63
    → h < 2 ^ 63
    → p < 2 ^ 63
    → r < 2 ^ 63
    → t < 2 ^ 63
    → apply_flags m (
        direct_memory_string (record z { value = pos d })
        ∷ heap_string (record z { value = pos h })
        ∷ metaspace_string (record z { value = pos p })
        ∷ reserved_code_cache_string (record z { value = pos r })
        ∷ stack_string (record z { value = pos t })
        ∷ [])
      ≡ ok (record m {
        direct_memory = read_back d;
        heap = some (read_back h);
        metaspace = some (read_back p);
        reserved_code_cache = read_back r;
        stack = read_back t;
      })
apply_flags-printed m d h p r t z ld lh lp lr lt =
    step _ _ _ (apply_flag-direct_memory m z d ld)
    ∙ step _ _ _ (apply_flag-heap _ z h lh)
    ∙ step _ _ _ (apply_flag-metaspace _ z p lp)
    ∙ step _ _ _ (apply_flag-reserved_code_cache _ z r lr)
    ∙ step _ _ _ (apply_flag-stack _ z t lt)
    ∙ unfold apply_flags in refl
