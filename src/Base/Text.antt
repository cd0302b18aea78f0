-- ===== src/Base/Text.antt =====
-- Go strings as lists of code points, and what the program uses of the packages strings and
-- strconv. Text that is not valid UTF-8 is not modelled.
pub mod Decimal
pub mod Split
pub mod Replace
pub mod Numbers
pub mod Sorting
use Prim.Native.Nat.{ℕ, zero, suc, ◌+◌, ◌-◌, ◌*◌, ◌≤◌, ◌<◌}
use Prim.Native.Char.{code}
use Prim.Native.String.{String}
use mathlib.Core.Path.{◌≡◌, refl}
use mathlib.Core.Bool.{Bool, true, false, not, ◌&&◌, ◌||◌}
use mathlib.Core.Logic.{◌⊎◌}
use mathlib.Core.Option.{Option, none, some}
use mathlib.Core.List.{List, [], ◌∷◌, ◌++◌, append-nil}
use native.Mathlib.Omega.{arith}
use jvm_vendors.Base.Tests.{leb, ◌==◌, if◌then◌else◌}
use jvm_vendors.Base.Lists.{is_nil, All}

abbrev pub Text : Type 0
Text = List ℕ

-- The code points of a literal.
abbrev pub codes : String → Text
codes String.[] = []
codes (String.◌∷◌ c s) = code c ∷ codes s

abbrev pub within : ℕ → ℕ → ℕ → Bool
within lo hi c = leb lo c && leb c hi

-- `unicode.IsSpace`
unfoldable pub is_space : ℕ → Bool
is_space c =
    within 9 13 c
    || c == 32
    || c == 0x85
    || c == 0xA0
    || c == 0x1680
    || within 0x2000 0x200A c
    || c == 0x2028
    || c == 0x2029
    || c == 0x202F
    || c == 0x205F
    || c == 0x3000

unfoldable pub is_digit : ℕ → Bool
is_digit = within b'0' b'9'

unfoldable pub trim_left : Text → Text
trim_left [] = []
trim_left (c ∷ s) = let rest = trim_left s in if is_space c then rest else c ∷ s

unfoldable pub trim_right : Text → Text
trim_right [] = []
trim_right (c ∷ s) = let rest = trim_right s in if is_nil rest && is_space c then [] else c ∷ rest

-- `strings.TrimSpace`
unfoldable pub trim_space : Text → Text
unfolding trim_left trim_right
trim_space s = trim_right (trim_left s)

-- Text with no space in it is left alone.
trim_right_id : (s : Text) → All (λ c. is_space c ≡ false) s → trim_right s ≡ s
unfolding trim_right
trim_right_id [] h = refl
trim_right_id (c ∷ s) (hc, hs) = ground (arith, trim_right_id s hs)

pub trim_space_id : (s : Text) → All (λ c. is_space c ≡ false) s → trim_space s ≡ s
unfolding trim_space
trim_space_id [] h = refl
trim_space_id (c ∷ s) (hc, hs) = rw hc (trim_right_id (c ∷ s) (hc, hs))

trim_left-blank : (s t : Text) → All (λ c. is_space c ≡ true) s → trim_left (s ++ t) ≡ trim_left t
unfolding trim_left
trim_left-blank [] t h = refl
trim_left-blank (c ∷ s) t (hc, hs) = rw hc (trim_left-blank s t hs)

trim_right-blank : (s : Text) → All (λ c. is_space c ≡ true) s → trim_right s ≡ []
unfolding trim_right
trim_right-blank [] h = refl
trim_right-blank (c ∷ s) (hc, hs) = rw (trim_right-blank s hs, hc) refl

trim_right-padded :
    (s t : Text)
    → All (λ c. is_space c ≡ false) s
    → All (λ c. is_space c ≡ true) t
    → trim_right (s ++ t) ≡ s
unfolding trim_right
trim_right-padded [] t hs ht = trim_right-blank t ht
trim_right-padded (c ∷ s) t (hc, hs) ht = ground (arith, trim_right-padded s t hs ht)

-- The spaces around a text without spaces are trimmed.
pub trim_space-padded :
    (front s back : Text)
    → All (λ c. is_space c ≡ true) front
    → All (λ c. is_space c ≡ false) s
    → All (λ c. is_space c ≡ true) back
    → trim_space (front ++ (s ++ back)) ≡ s
unfolding trim_space trim_left
trim_space-padded front [] back hf hs hb =
    rw (trim_left-blank front back hf, ← append-nil back, trim_left-blank back [] hb) refl
trim_space-padded front (c ∷ s) back hf (hc, hs) hb =
    rw (trim_left-blank front (c ∷ (s ++ back)) hf, hc) (trim_right-padded (c ∷ s) back (hc, hs) hb)

-- Equality of texts.
unfoldable pub text_eq : Text → Text → Bool
text_eq [] [] = true
text_eq [] (d ∷ t) = false
text_eq (c ∷ s) [] = false
text_eq (c ∷ s) (d ∷ t) = c == d && text_eq s t

pub text_eq_sound : (s t : Text) → text_eq s t ≡ true → s ≡ t
unfolding text_eq
text_eq_sound [] [] h = refl
text_eq_sound [] (d ∷ t) h = cc
text_eq_sound (c ∷ s) [] h = cc
text_eq_sound (c ∷ s) (d ∷ t) h = ground (arith, text_eq_sound s t)

pub text_eq_refl : (s : Text) → text_eq s s ≡ true
unfolding text_eq
text_eq_refl [] = refl
text_eq_refl (c ∷ s) = ground (arith, text_eq_refl s)

-- One of the texts of a list.
unfoldable pub IsOneOf : Text → List Text → Type 0
IsOneOf p [] = ⊥
IsOneOf p (q ∷ qs) = (p ≡ q) ⊎ IsOneOf p qs

-- `strings.CutPrefix`: what follows the prefix, if it is there.
unfoldable pub strip_prefix : Text → Text → Option Text
strip_prefix [] s = some s
strip_prefix (c ∷ p) [] = none
strip_prefix (c ∷ p) (d ∷ s) = let rest = strip_prefix p s in if c == d then rest else none

abbrev pub is_some {ℓ} : {A : Type ℓ} → Option A → Bool
is_some none = false
is_some (some a) = true

abbrev pub has_prefix : Text → Text → Bool
has_prefix s p = is_some (strip_prefix p s)

pub strip_prefix-append : (p s : Text) → strip_prefix p (p ++ s) ≡ some s
unfolding strip_prefix
strip_prefix-append [] s = refl
strip_prefix-append (c ∷ p) s = ground (arith, strip_prefix-append p s)

pub strip_prefix_sound : (p s : Text) {t : Text} → strip_prefix p s ≡ some t → s ≡ p ++ t
unfolding strip_prefix
strip_prefix_sound [] s h = ground arith
strip_prefix_sound (c ∷ p) [] h = cc
strip_prefix_sound (c ∷ p) (d ∷ s) {t} h = ground (arith, strip_prefix_sound p s {t = t})

-- `strings.Contains`
unfoldable pub contains : Text → Text → Bool
contains [] p = is_nil p
contains (c ∷ s) p = has_prefix (c ∷ s) p || contains s p

-- `strings.Join`
unfoldable pub join : List Text → Text → Text
join [] sep = []
join (p ∷ []) sep = p
join (p ∷ q ∷ ps) sep = p ++ (sep ++ join (q ∷ ps) sep)

-- `strings.HasSuffix`: the text ends in the suffix.
unfoldable pub has_suffix : Text → Text → Bool
has_suffix [] p = is_nil p
has_suffix (c ∷ s) p = text_eq (c ∷ s) p || has_suffix s p

-- `strings.TrimSuffix`
unfoldable pub trim_suffix : Text → Text → Text
trim_suffix [] p = []
trim_suffix (c ∷ s) p = let rest = trim_suffix s p in if text_eq (c ∷ s) p then [] else c ∷ rest

pub has_suffix-append : (s p : Text) → has_suffix (s ++ p) p ≡ true
unfolding has_suffix
has_suffix-append [] [] = refl
has_suffix-append [] (c ∷ p) = rw (text_eq_refl (c ∷ p))
has_suffix-append (c ∷ s) p = ground (arith, has_suffix-append s p)

-- What follows the last slash of a text, once a slash is found.
after_slash : Text → Text → Text
after_slash found [] = found
after_slash found (c ∷ s) = after_slash (if c == b'/' then s else found) s

trim_slashes : Text → Text
trim_slashes [] = []
trim_slashes (c ∷ s) =
    let rest = trim_slashes s in if is_nil rest && c == b'/' then [] else c ∷ rest

named_base : Text → Text → Text
named_base [] [] = codes "."
named_base (c ∷ s) [] = codes "/"
named_base s (c ∷ t) = after_slash (c ∷ t) (c ∷ t)

-- `path.Base`, and `filepath.Base` on Unix.
unfoldable pub base_name : Text → Text
unfolding named_base after_slash trim_slashes
base_name s = named_base s (trim_slashes s)

contains_front : (p t : Text) → contains (p ++ t) p ≡ true
unfolding contains
contains_front [] [] = refl
contains_front [] (c ∷ t) = unfold strip_prefix in refl
contains_front (c ∷ p) t = rw (strip_prefix-append (c ∷ p) t)

-- A text contains what stands in it.
pub contains-append : (s p t : Text) → contains (s ++ (p ++ t)) p ≡ true
unfolding contains
contains-append [] p t = contains_front p t
contains-append (c ∷ s) p t = ground (arith, contains-append s p t)

-- `unicode.ToLower`; `other` is the function beyond ASCII.
abbrev pub lower_code : (ℕ → ℕ) → ℕ → ℕ
lower_code other c = if within b'A' b'Z' c then c + 32 else if leb c 127 then c else other c

-- `strings.ToLower`
unfoldable pub lower : (ℕ → ℕ) → Text → Text
lower other [] = []
lower other (c ∷ s) = lower_code other c ∷ lower other s

trim_right-nonempty :
    (s t : Text) (c : ℕ) → is_space c ≡ false → is_nil (trim_right (s ++ c ∷ t)) ≡ false
unfolding trim_right
trim_right-nonempty [] t c h = rw h (ground arith)
trim_right-nonempty (d ∷ s) t c h = rw (trim_right-nonempty s t c h)

-- A text with a character that is no space is not blank.
pub trim_space-nonempty :
    (s t : Text) (c : ℕ) → is_space c ≡ false → is_nil (trim_space (s ++ c ∷ t)) ≡ false
unfolding trim_space trim_left
trim_space-nonempty [] t c h = rw h (trim_right-nonempty [] t c h)
trim_space-nonempty (d ∷ s) t c h =
    ground (arith, trim_space-nonempty s t c h, trim_right-nonempty (d ∷ s) t c h)
