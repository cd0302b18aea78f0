-- ===== src/Count/Strings/Reading.antt =====
-- What is read of a name: all of an ASCII name, and too little of any other.
use jvm_vendors.Base.{
  ℕ, zero, suc, ◌+◌, ◌≡◌, ◌↔◌, ◌≤◌, refl, sym, ◌∙◌, ap, false, List, [], ◌∷◌, ◌++◌, take, length,
  All, if◌then◌else◌, ◌==◌, arith, Bool-cases, inl, inr,
}
use jvm_vendors.Base.Result.{ok, ok-injective}
use jvm_vendors.Count.Reader.{Bytes}
use jvm_vendors.Count.Strings.{is_continuation, name_length, read_name}

abbrev pub NotZero : ℕ → Type 0
NotZero c = (c == 0) ≡ false

-- The number of bytes that continue no sequence: of characters, in valid UTF-8.
unfoldable pub characters : Bytes → ℕ
characters [] = 0
characters (c ∷ s) = let rest = characters s in if is_continuation c then rest else rest + 1

name_length-characters :
    (s rest : Bytes) (n : ℕ) → All NotZero s → name_length (s ++ 0 ∷ rest) n ≡ ok (n + characters s)
unfolding name_length characters
name_length-characters [] rest n h = ground arith
name_length-characters (c ∷ s) rest n (hc, hs) =
    ground (arith, name_length-characters s rest n hs, name_length-characters s rest (n + 1) hs)

characters-le-length : (s : Bytes) → characters s ≤ length s
unfolding characters
characters-le-length [] = omega arith
characters-le-length (c ∷ s) = ground (arith, characters-le-length s)

take-append_le {ℓ} :
    {A : Type ℓ} (n : ℕ) (xs ys : List A) → n ≤ length xs → take n (xs ++ ys) ≡ take n xs
take-append_le zero xs ys h = refl
take-append_le (suc n) [] ys h = absurd (omega arith)
take-append_le (suc n) (x ∷ xs) ys h = ap (λ t. x ∷ t) (take-append_le n xs ys (omega arith))

length-take_le {ℓ} : {A : Type ℓ} (n : ℕ) (xs : List A) → length (take n xs) ≤ n
length-take_le zero xs = omega arith
length-take_le (suc n) [] = omega arith
length-take_le (suc n) (x ∷ xs) = omega (arith, length-take_le n xs)

take_all {ℓ} : {A : Type ℓ} (xs : List A) → take (length xs) xs ≡ xs
take_all [] = refl
take_all (x ∷ xs) = ap (λ t. x ∷ t) (take_all xs)

-- Of a name that is ended by a zero byte as many bytes are read as it has characters.
pub read_name-take :
    (s rest : Bytes) → All NotZero s → read_name (s ++ 0 ∷ rest) ≡ ok (take (characters s) s)
unfolding read_name
read_name-take s rest h =
    let e : 0 + characters s ≡ characters s = omega arith in
    rw (name_length-characters s rest 0 h, e)
      (ap ok (take-append_le (characters s) s (0 ∷ rest) (characters-le-length s)))

characters_full : (s : Bytes) → All (λ c. is_continuation c ≡ false) s → characters s ≡ length s
unfolding characters
characters_full [] h = refl
characters_full (c ∷ s) (hc, hs) = rw hc (omega (arith, characters_full s hs))

full_characters : (s : Bytes) → characters s ≡ length s → All (λ c. is_continuation c ≡ false) s
unfolding characters
full_characters [] h = tt
full_characters (c ∷ s) h = elim (Bool-cases (is_continuation c)) [
  | inl e ↦ absurd (omega (arith, characters-le-length s, (rw e at h)))
  | inr e ↦ (e, full_characters s (omega (arith, (rw e at h))))
]

-- So a name without zero bytes that a zero byte ends is read whole exactly if none of its bytes
-- continues a sequence: a name with a character beyond ASCII is cut short.
pub read_name_iff :
    (s rest : Bytes)
    → All NotZero s
    → (read_name (s ++ 0 ∷ rest) ≡ ok s) ↔ All (λ c. is_continuation c ≡ false) s
read_name_iff s rest h = (
  λ whole.
      let same : take (characters s) s ≡ s = ok-injective (sym (read_name-take s rest h) ∙ whole) in
      full_characters s
        (omega (arith, length-take_le (characters s) s, characters-le-length s, ap length same)),
  λ plain. read_name-take s rest h ∙ ap ok (rw (characters_full s plain) (take_all s)),
)
