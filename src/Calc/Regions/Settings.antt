-- ===== src/Calc/Regions/Settings.antt =====
-- Which flag sets a region: the last one that is recognised for it.
use jvm_vendors.Base.{
  ◌≡◌, refl, ◌∙◌, ap, Bool, true, false, ◌&&◌, List, [], ◌∷◌, some, arith, if◌then◌else◌,
  Bool-cases, inl, inr,
}
use jvm_vendors.Base.Text.{Text}
use jvm_vendors.Base.Result.{Result, ok, err, >>=-eq-ok}
use jvm_vendors.Calc.Size.{Size}
use jvm_vendors.Calc.Flags.{
  FlagError, direct_memory_prefix, heap_prefix, metaspace_prefix, reserved_code_cache_prefix,
  stack_prefix, match_direct_memory, parse_direct_memory, match_heap, parse_heap, match_metaspace,
  parse_metaspace, match_reserved_code_cache, parse_reserved_code_cache, match_stack, parse_stack,
  match_flag,
}
use jvm_vendors.Calc.Flags.Reading.{clash, match_flag-clash}
use jvm_vendors.Calc.Regions.{MemoryRegions, configured, apply_flag, apply_flags}

-- A flag that is read gives a new value.
abbrev read_or : {A : Type 0} → (Size → A) → Result FlagError Size → A → A
read_or wrap (ok z) old = wrap (configured z)
read_or wrap (err e) old = old

-- A setting after some flags: its value before them, unless one of them is recognised for it, and
-- then the value of the last such.
unfoldable pub setting :
    {A : Type 0} → (Text → Bool) → (Text → Result FlagError Size) → (Size → A) → A → List Text → A
setting recognised read wrap old [] = old
setting recognised read wrap old (f ∷ fs) =
    setting recognised read wrap (if recognised f then read_or wrap (read f) old else old) fs

-- No flag is recognised for two regions.
apart : (p q f : Text) → clash p q ≡ true → (match_flag p f && match_flag q f) ≡ false
apart p q f h = elim (Bool-cases (match_flag p f)) [
  | inl e ↦ rw (e, match_flag-clash p q f h e)
  | inr e ↦ rw e
]

abbrev AtMostOne : (a b c d e : Bool) → Type 0
AtMostOne a b c d e =
    ((a && b) ≡ false)
    × ((a && c) ≡ false)
    × ((a && d) ≡ false)
    × ((a && e) ≡ false)
    × ((b && c) ≡ false)
    × ((b && d) ≡ false)
    × ((b && e) ≡ false)
    × ((c && d) ≡ false)
    × ((c && e) ≡ false)
    × ((d && e) ≡ false)

one_region :
    (f : Text)
    → AtMostOne
        (match_direct_memory f)
        (match_heap f)
        (match_metaspace f)
        (match_reserved_code_cache f)
        (match_stack f)
unfolding match_direct_memory match_heap match_metaspace match_reserved_code_cache match_stack clash
one_region f = (
  apart direct_memory_prefix heap_prefix f refl,
  apart direct_memory_prefix metaspace_prefix f refl,
  apart direct_memory_prefix reserved_code_cache_prefix f refl,
  apart direct_memory_prefix stack_prefix f refl,
  apart heap_prefix metaspace_prefix f refl,
  apart heap_prefix reserved_code_cache_prefix f refl,
  apart heap_prefix stack_prefix f refl,
  apart metaspace_prefix reserved_code_cache_prefix f refl,
  apart metaspace_prefix stack_prefix f refl,
  apart reserved_code_cache_prefix stack_prefix f refl,
)

module _ {F : Type 0} where
  -- The regions `m'` are the regions `m` with five settings replaced, each by its own flags.
  pub record IsSetBy (m : MemoryRegions F) (fs : List Text) (m' : MemoryRegions F) : Type 0 where
    pub direct_memory :
        m'.direct_memory
        ≡ setting match_direct_memory parse_direct_memory (λ z. z) m.direct_memory fs
    pub heap : m'.heap ≡ setting match_heap parse_heap some m.heap fs
    pub metaspace : m'.metaspace ≡ setting match_metaspace parse_metaspace some m.metaspace fs
    pub reserved_code_cache :
        m'.reserved_code_cache
        ≡ setting match_reserved_code_cache parse_reserved_code_cache
            (λ z. z)
            m.reserved_code_cache
            fs
    pub stack : m'.stack ≡ setting match_stack parse_stack (λ z. z) m.stack fs
    pub head_room : m'.head_room ≡ m.head_room
    pub scaling_factor : m'.scaling_factor ≡ m.scaling_factor

  apply_flag-one :
      (m : MemoryRegions F) (f : Text) {m' : MemoryRegions F}
      → apply_flag m f ≡ ok m'
      → IsSetBy m (f ∷ []) m'
  unfolding apply_flag setting
  apply_flag-one m f h = let one = one_region f in ground arith

  -- Flags that are all read set each region to the value of the last flag that is recognised for it,
  -- whatever flags for other regions stand between; a region without a flag keeps its value.
  pub apply_flags-IsSetBy :
      (m : MemoryRegions F) (fs : List Text) {m' : MemoryRegions F}
      → apply_flags m fs ≡ ok m'
      → IsSetBy m fs m'
  unfolding apply_flags setting
  apply_flags-IsSetBy m [] h = ground arith
  apply_flags-IsSetBy m (f ∷ fs) {m'} h =
      let (n, first, rest) = >>=-eq-ok (apply_flag m f) (λ n. apply_flags n fs) h in
      let one = apply_flag-one m f first in
      let more = apply_flags-IsSetBy n fs rest in
      record {
        direct_memory =
            more.direct_memory
            ∙ ap (λ z. setting match_direct_memory parse_direct_memory (λ y. y) z fs)
                one.direct_memory;
        heap = more.heap ∙ ap (λ z. setting match_heap parse_heap some z fs) one.heap;
        metaspace =
            more.metaspace
            ∙ ap (λ z. setting match_metaspace parse_metaspace some z fs) one.metaspace;
        reserved_code_cache =
            more.reserved_code_cache
            ∙ ap (λ z. setting match_reserved_code_cache parse_reserved_code_cache (λ y. y) z fs)
                one.reserved_code_cache;
        stack = more.stack ∙ ap (λ z. setting match_stack parse_stack (λ y. y) z fs) one.stack;
        head_room = more.head_room ∙ one.head_room;
        scaling_factor = more.scaling_factor ∙ one.scaling_factor;
      }
