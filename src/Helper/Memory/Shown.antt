-- ===== src/Helper/Memory/Shown.antt =====
-- A joined text contains its parts: the flags in the options that are set.
use jvm_vendors.Base.{
  ◌≡◌, refl, sym, subst, true, false, Option, some, List, [], ◌∷◌, ◌++◌, arith, inl, inr, ◌⊎◌,
}
use mathlib.Core.List.{append-nil}
use jvm_vendors.Base.Text.{Text, codes, join, contains, contains-append, IsOneOf}
use jvm_vendors.Calc.Size.{Size}
use jvm_vendors.Calc.Flags.{
  direct_memory_string, heap_string, metaspace_string, reserved_code_cache_string, stack_string,
}
use jvm_vendors.Calc.Regions.{MemoryRegions}
use jvm_vendors.Calc.Calculator.{is_user_configured}
use jvm_vendors.Helper.Env.{values}
use jvm_vendors.Helper.Memory.{shown}

pub one-append : (p : Text) (xs ys : List Text) → IsOneOf p xs ⊎ IsOneOf p ys → IsOneOf p (xs ++ ys)
unfolding IsOneOf
one-append p [] ys (inl x) = elim x [ ]
one-append p [] ys (inr h) = h
one-append p (x ∷ xs) ys (inl (inl e)) = inl e
one-append p (x ∷ xs) ys (inl (inr h)) = inr (one-append p xs ys (inl h))
one-append p (x ∷ xs) ys (inr h) = inr (one-append p xs ys (inr h))

contains_behind : (s t p : Text) → contains t p ≡ true → contains (s ++ t) p ≡ true
unfolding contains
contains_behind [] t p h = h
contains_behind (c ∷ s) t p h = ground (arith, contains_behind s t p h)

contains_self : (p : Text) → contains p p ≡ true
contains_self p = subst (λ t. contains t p ≡ true) (append-nil p) (contains-append [] p [])

-- A joined text contains each of its parts.
pub contains-join :
    (p : Text) (ps : List Text) (sep : Text) → IsOneOf p ps → contains (join ps sep) p ≡ true
unfolding IsOneOf join
contains-join p [] sep x = elim x [ ]
contains-join p (q ∷ []) sep (inr h) = elim h [ ]
contains-join p (q ∷ []) sep (inl e) = rw (sym e) (contains_self p)
contains-join p (q ∷ r ∷ ps) sep (inl e) =
    rw (sym e) (contains-append [] p (sep ++ join (r ∷ ps) sep))
contains-join p (q ∷ r ∷ ps) sep (inr h) =
    contains_behind q _ p (contains_behind sep _ p (contains-join p (r ∷ ps) sep h))

-- The text has the flag of a region that the user has not set.
abbrev pub Shows : Text → (Size → Text) → Size → Type 0
Shows text print z = is_user_configured z.provenance ≡ false → contains text (print z) ≡ true

pub shown-one :
    (print : Size → Text) (z : Size)
    → is_user_configured z.provenance ≡ false
    → IsOneOf (print z) (shown print z)
unfolding IsOneOf
shown-one print z h = rw h (inl refl)

-- The text has the flags of all regions that the user has not set.
pub record ShowsRegions {F : Type 0} (text : Text) (m : MemoryRegions F) : Type 0 where
  pub heap : Size
  pub heap_set : m.heap ≡ some heap
  pub metaspace : Size
  pub metaspace_set : m.metaspace ≡ some metaspace
  pub shows_direct_memory : Shows text direct_memory_string m.direct_memory
  pub shows_heap : Shows text heap_string heap
  pub shows_metaspace : Shows text metaspace_string metaspace
  pub shows_code_cache : Shows text reserved_code_cache_string m.reserved_code_cache
  pub shows_stack : Shows text stack_string m.stack

pub in_options :
    (opts : Option Text) (flags headers : List Text) (p : Text)
    → IsOneOf p flags
    → contains (join (values opts ++ (flags ++ headers)) (codes " ")) p ≡ true
in_options opts flags headers p h =
    contains-join p (values opts ++ (flags ++ headers)) (codes " ")
      (one-append p (values opts) (flags ++ headers) (inr (one-append p flags headers (inl h))))
