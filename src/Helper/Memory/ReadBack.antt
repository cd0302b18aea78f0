-- ===== src/Helper/Memory/ReadBack.antt =====
-- The flags that the helper shows, read again by a calculation.
use jvm_vendors.Base.{
  ℕ, ◌<◌, ◌^◌, ◌≡◌, refl, sym, ap, ◌∙◌, Bool, true, false, some, List, [], ◌∷◌, ◌++◌, if◌then◌else◌,
}
use mathlib.Core.List.{append-nil}
use jvm_vendors.Base.Float.{Float64}
use jvm_vendors.Base.Int.{pos}
use jvm_vendors.Base.Result.{ok}
use jvm_vendors.Base.Text.{Text}
use jvm_vendors.Versions.{Semver}
use jvm_vendors.Calc.Size.{Size, Provenance}
use jvm_vendors.Calc.Calculator.{is_user_configured}
use jvm_vendors.Calc.Flags.{
  direct_memory_string, heap_string, metaspace_string, reserved_code_cache_string, stack_string,
}
use jvm_vendors.Calc.Regions.{MemoryRegions, apply_flags}
use jvm_vendors.Calc.Regions.RoundTrip.{
  read_back, step, apply_flag-direct_memory, apply_flag-heap, apply_flag-metaspace,
  apply_flag-reserved_code_cache, apply_flag-stack,
}
use jvm_vendors.Helper.Memory.{shown, shown_regions, calculated_flags}

-- A size in bytes, with what it comes from.
abbrev pub sized : ℕ → Provenance → Size
sized n provenance = record { value = pos n; provenance = provenance }

-- What a calculation on top of the flags takes it for.
abbrev pub kept : ℕ → Provenance → Size
kept n provenance = if is_user_configured provenance then sized n provenance else read_back n

module _ {F : Type 0} (m : MemoryRegions F) (n : ℕ) (provenance : Provenance) (fs : List Text)
    (h : n < 2 ^ 63) where
  abbrev flag : (Size → Text) → Bool → List Text
  flag print b = (if b then [] else print (sized n provenance) ∷ []) ++ fs

  abbrev either : Bool → Size
  either b = if b then sized n provenance else read_back n

  keep_direct_memory :
      (b : Bool)
      → apply_flags (record m { direct_memory = sized n provenance }) (flag direct_memory_string b)
        ≡ apply_flags (record m { direct_memory = either b }) fs
  keep_direct_memory true = refl
  keep_direct_memory false = step _ _ fs (
      apply_flag-direct_memory (record m { direct_memory = sized n provenance })
        (sized n provenance) n h)

  keep_heap :
      (b : Bool)
      → apply_flags (record m { heap = some (sized n provenance) }) (flag heap_string b)
        ≡ apply_flags (record m { heap = some (either b) }) fs
  keep_heap true = refl
  keep_heap false =
      step _ _ fs
        (apply_flag-heap (record m { heap = some (sized n provenance) }) (sized n provenance) n h)

  keep_metaspace :
      (b : Bool)
      → apply_flags (record m { metaspace = some (sized n provenance) }) (flag metaspace_string b)
        ≡ apply_flags (record m { metaspace = some (either b) }) fs
  keep_metaspace true = refl
  keep_metaspace false = step _ _ fs (
      apply_flag-metaspace (record m { metaspace = some (sized n provenance) }) (sized n provenance)
        n h)

  keep_reserved_code_cache :
      (b : Bool)
      → apply_flags
          (record m { reserved_code_cache = sized n provenance })
          (flag reserved_code_cache_string b)
        ≡ apply_flags (record m { reserved_code_cache = either b }) fs
  keep_reserved_code_cache true = refl
  keep_reserved_code_cache false = step _ _ fs (
      apply_flag-reserved_code_cache (record m { reserved_code_cache = sized n provenance })
        (sized n provenance) n h)

  keep_stack :
      (b : Bool)
      → apply_flags (record m { stack = sized n provenance }) (flag stack_string b)
        ≡ apply_flags (record m { stack = either b }) fs
  keep_stack true = refl
  keep_stack false =
      step _ _ fs
        (apply_flag-stack (record m { stack = sized n provenance }) (sized n provenance) n h)

abbrev pub regions : {F : Type 0} → MemoryRegions F → (d h p r t : Size) → MemoryRegions F
regions m d h p r t = record m {
  direct_memory = d;
  heap = some h;
  metaspace = some p;
  reserved_code_cache = r;
  stack = t;
}

-- The flags that the helper adds for the regions that the user has not set, read on top of the same
-- regions, leave what the user has set and give each other region its size, rounded down to whole
-- kibibytes, as one that is set; all sizes are below 2^63 bytes.
pub calculated_flags-read_back :
    {F V : Type 0} (fl : Float64 F) (sv : Semver V) (m : MemoryRegions F) (d h p r t : ℕ)
    (pd ph pp pr pt : Provenance)
    → d < 2 ^ 63
    → h < 2 ^ 63
    → p < 2 ^ 63
    → r < 2 ^ 63
    → t < 2 ^ 63
    → (flags : List Text) × (calculated_flags fl sv
          (regions m (sized d pd) (sized h ph) (sized p pp) (sized r pr) (sized t pt))
        ≡ ok flags)
      × (apply_flags
            (regions m (sized d pd) (sized h ph) (sized p pp) (sized r pr) (sized t pt))
            flags
          ≡ ok (regions m (kept d pd) (kept h ph) (kept p pp) (kept r pr) (kept t pt)))
unfolding calculated_flags shown_regions
calculated_flags-read_back fl sv m d h p r t pd ph pp pr pt ld lh lp lr lt =
    let zd = sized d pd in
    let zh = sized h ph in
    let zp = sized p pp in
    let zr = sized r pr in
    let zt = sized t pt in
    let fd = shown direct_memory_string zd in
    let fh = shown heap_string zh in
    let fp = shown metaspace_string zp in
    let fr = shown reserved_code_cache_string zr in
    let ft = shown stack_string zt in
    (
      fd ++ (fh ++ (fp ++ (fr ++ ft))),
      refl,
      keep_direct_memory (regions m zd zh zp zr zt) d pd (fh ++ (fp ++ (fr ++ ft))) ld
            (is_user_configured pd)
          ∙ keep_heap (regions m (kept d pd) zh zp zr zt) h ph (fp ++ (fr ++ ft)) lh
              (is_user_configured ph)
          ∙ keep_metaspace (regions m (kept d pd) (kept h ph) zp zr zt) p pp (fr ++ ft) lp
              (is_user_configured pp)
          ∙ keep_reserved_code_cache (regions m (kept d pd) (kept h ph) (kept p pp) zr zt) r pr ft
              lr (is_user_configured pr)
          ∙ ap (apply_flags (regions m (kept d pd) (kept h ph) (kept p pp) (kept r pr) zt))
              (sym (append-nil ft))
          ∙ keep_stack (regions m (kept d pd) (kept h ph) (kept p pp) (kept r pr) zt) t pt [] lt
              (is_user_configured pt)
          ∙ unfold apply_flags in refl,
    )
