-- ===== src/Calc/Size/Grammar.antt =====
-- What `parse_size` accepts: digits, then at most one unit, with spaces around them.
use jvm_vendors.Base.{
  ℕ, ◌*◌, ◌≤◌, ◌<◌, ◌^◌, ◌≡◌, ◌≢◌, refl, sym, ◌∙◌, ap, true, false, Option, none, some, [], ◌∷◌,
  ◌++◌, arith, subst, leb, le→leb, leb→le, All, if◌then◌else◌, Bool-cases, inl, inr, ◌⊎◌,
}
use jvm_vendors.Base.Int.{pos, wrap64}
use jvm_vendors.Base.Int.Words.{mul64_wraps, wrap64_id, wrap64-IsI64}
use jvm_vendors.Base.Result.{ok, err}
use jvm_vendors.Base.Text.{Text, is_digit, trim_space}
use jvm_vendors.Base.Text.Decimal.{IsDigit, value}
use jvm_vendors.Calc.Size.{
  Size, unknown, not_integer, kibi, mebi, gibi, tebi, max_i64, split_digits, is_unit, groups,
  match_size, scale, parse_size,
}

-- A unit: nothing, or one of the letters, with the number of bytes that it stands for.
pub data IsUnit : Text → ℕ → Type 0 where
  bytes : IsUnit [] 1
  kibibytes : IsUnit (b'k' ∷ []) kibi
  mebibytes : IsUnit (b'm' ∷ []) mebi
  gibibytes : IsUnit (b'g' ∷ []) gibi
  tebibytes : IsUnit (b't' ∷ []) tebi
  kibibytes_upper : IsUnit (b'K' ∷ []) kibi
  mebibytes_upper : IsUnit (b'M' ∷ []) mebi
  gibibytes_upper : IsUnit (b'G' ∷ []) gibi
  tebibytes_upper : IsUnit (b'T' ∷ []) tebi

-- The digits in front of a text that does not start with a digit.
abbrev NoDigit : Text → Type 0
NoDigit [] = Unit
NoDigit (c ∷ s) = is_digit c ≡ false

pub split_digits-append :
    (ds rest : Text) → All IsDigit ds → NoDigit rest → split_digits (ds ++ rest) ≡ (ds, rest)
unfolding split_digits
split_digits-append [] [] h k = refl
split_digits-append [] (c ∷ s) h k = rw k
split_digits-append (d ∷ ds) rest (hd, hds) k = rw (hd, split_digits-append ds rest hds k)

pub split_digits_sound :
    (s : Text) → All IsDigit (split_digits s).0 × ((split_digits s).0 ++ (split_digits s).1 ≡ s)
unfolding split_digits
split_digits_sound [] = (tt, refl)
split_digits_sound (c ∷ s) = elim (Bool-cases (is_digit c)) [
  | inl e ↦ rw e ((e, (split_digits_sound s).0), ap (λ t. c ∷ t) (split_digits_sound s).1)
  | inr e ↦ rw e (tt, refl)
]

unit-NoDigit : {u : Text} {k : ℕ} → IsUnit u k → NoDigit u
unfolding is_digit
unit-NoDigit bytes = tt
unit-NoDigit kibibytes = refl
unit-NoDigit mebibytes = refl
unit-NoDigit gibibytes = refl
unit-NoDigit tebibytes = refl
unit-NoDigit kibibytes_upper = refl
unit-NoDigit mebibytes_upper = refl
unit-NoDigit gibibytes_upper = refl
unit-NoDigit tebibytes_upper = refl

groups-unit :
    (d : ℕ) (ds : Text) {u : Text} {k : ℕ} → IsUnit u k → groups (d ∷ ds, u) ≡ some (d ∷ ds, u)
unfolding groups is_unit
groups-unit d ds bytes = refl
groups-unit d ds kibibytes = refl
groups-unit d ds mebibytes = refl
groups-unit d ds gibibytes = refl
groups-unit d ds tebibytes = refl
groups-unit d ds kibibytes_upper = refl
groups-unit d ds mebibytes_upper = refl
groups-unit d ds gibibytes_upper = refl
groups-unit d ds tebibytes_upper = refl

pub match_size-append :
    (ds : Text) {u : Text} {k : ℕ}
    → ds ≢ []
    → All IsDigit ds
    → IsUnit u k
    → match_size (ds ++ u) ≡ some (ds, u)
unfolding match_size
match_size-append [] ne h unit = absurd (ne refl)
match_size-append (d ∷ ds) {u} ne h unit =
    rw (split_digits-append (d ∷ ds) u h (unit-NoDigit unit)) (groups-unit d ds unit)

-- A number that fits is multiplied by its unit, as int64 arithmetic does.
pub scale-unit :
    {u : Text} {k : ℕ} (n : ℕ) → n ≤ max_i64 → IsUnit u k → scale u (pos n) ≡ wrap64 (pos (n * k))
unfolding scale
scale-unit n h bytes =
    let e : n * 1 ≡ n = omega arith in rw e (sym (wrap64_id (pos n) (omega arith)))
scale-unit n h kibibytes = mul64_wraps n kibi
scale-unit n h mebibytes = mul64_wraps n mebi
scale-unit n h gibibytes = mul64_wraps n gibi
scale-unit n h tebibytes = mul64_wraps n tebi
scale-unit n h kibibytes_upper = mul64_wraps n kibi
scale-unit n h mebibytes_upper = mul64_wraps n mebi
scale-unit n h gibibytes_upper = mul64_wraps n gibi
scale-unit n h tebibytes_upper = mul64_wraps n tebi

-- What a size text means: digits that spell `n`, then a unit of `k` bytes.
pub record IsSizeText (t : Text) (n k : ℕ) : Type 0 where
  pub ds : Text
  pub unit : Text
  pub spelled : t ≡ ds ++ unit
  pub ds_ne_nil : ds ≢ []
  pub ds_digits : All IsDigit ds
  pub ds_value : value ds ≡ n
  pub unit_of : IsUnit unit k

-- A size text is accepted exactly if its number fits an int64, and the result is the number of
-- bytes, wrapped around to an int64.
pub parse_size-IsSizeText :
    (s : Text) {n k : ℕ}
    → IsSizeText (trim_space s) n k
    → parse_size s ≡ (
        if leb n max_i64
        then ok (record { value = wrap64 (pos (n * k)); provenance = unknown })
        else err not_integer)
unfolding parse_size
parse_size-IsSizeText s {n} {k} h =
    rw (h.spelled, match_size-append h.ds h.ds_ne_nil h.ds_digits h.unit_of, h.ds_value)
      (elim (Bool-cases (leb n max_i64)) [
        | inl e ↦ rw (e, scale-unit n (leb→le n max_i64 e) h.unit_of)
        | inr e ↦ rw e
      ])

letter_cases :
    (c : ℕ)
    → is_unit c ≡ true
    → (c ≡ b'k')
      ⊎ (c ≡ b'm')
      ⊎ (c ≡ b'g')
      ⊎ (c ≡ b't')
      ⊎ (c ≡ b'K')
      ⊎ (c ≡ b'M')
      ⊎ (c ≡ b'G')
      ⊎ (c ≡ b'T')
unfolding is_unit
letter_cases c h = ground arith

abbrev SomeUnit : Text → Type 0
SomeUnit u = (k : ℕ) × IsUnit u k

letter-SomeUnit : (c : ℕ) → is_unit c ≡ true → SomeUnit (c ∷ [])
letter-SomeUnit c h = elim (letter_cases c h) [
  | inl e ↦ rw e (kibi, kibibytes)
  | inr (inl e) ↦ rw e (mebi, mebibytes)
  | inr (inr (inl e)) ↦ rw e (gibi, gibibytes)
  | inr (inr (inr (inl e))) ↦ rw e (tebi, tebibytes)
  | inr (inr (inr (inr (inl e)))) ↦ rw e (kibi, kibibytes_upper)
  | inr (inr (inr (inr (inr (inl e))))) ↦ rw e (mebi, mebibytes_upper)
  | inr (inr (inr (inr (inr (inr (inl e)))))) ↦ rw e (gibi, gibibytes_upper)
  | inr (inr (inr (inr (inr (inr (inr e)))))) ↦ rw e (tebi, tebibytes_upper)
]

groups_sound :
    (p : Text × Text) {ds u : Text}
    → groups p ≡ some (ds, u)
    → (p.0 ≡ ds) × (p.1 ≡ u) × (ds ≢ []) × SomeUnit u
unfolding groups
groups_sound ([], rest) h = cc
groups_sound (d ∷ ds, []) h = (cc, cc, cc, subst SomeUnit (cc) (1, bytes))
groups_sound (d ∷ ds, c ∷ []) {u = u} h = elim (Bool-cases (is_unit c)) [
  | inl e ↦ (
    cc (rw e at h),
    cc (rw e at h),
    cc (rw e at h),
    subst SomeUnit (cc (rw e at h)) (letter-SomeUnit c e),
  )
  | inr e ↦ cc (rw e at h)
]
groups_sound (d ∷ ds, c ∷ c' ∷ r) h = cc

IsSizeText-match :
    (t : Text) {ds u : Text} → match_size t ≡ some (ds, u) → (k : ℕ) × IsSizeText t (value ds) k
unfolding match_size
IsSizeText-match t {ds} {u} h =
    let (eds, eu, ne, some_unit) = groups_sound (split_digits t) h in
    let (k, unit) = some_unit in
    let (all, whole) = split_digits_sound t in
    (
      k,
      record {
        ds = ds;
        unit = u;
        spelled = sym whole ∙ cc;
        ds_ne_nil = ne;
        ds_digits = subst (All IsDigit) eds all;
        ds_value = refl;
        unit_of = unit;
      },
    )

-- Whatever is accepted is a size text within spaces, whose number fits an int64.
pub parse_size_sound :
    (s : Text) {z : Size}
    → parse_size s ≡ ok z
    → (n : ℕ) × (k : ℕ) × IsSizeText (trim_space s) n k × (n ≤ max_i64)
unfolding parse_size
parse_size_sound s {z} h = go (match_size (trim_space s)) refl
  where
    go :
        (m : Option (Text × Text))
        → match_size (trim_space s) ≡ m
        → (n : ℕ) × (k : ℕ) × IsSizeText (trim_space s) n k × (n ≤ max_i64)
    go none e = cc (rw e at h)
    go (some (ds, u)) e =
        let (k, t) = IsSizeText-match (trim_space s) e in
        (value ds, k, t, ground (arith, (rw e at h)))

-- A size text whose number of bytes fits an int64 is read as that number.
pub parse_size_exact :
    (s : Text) {n k : ℕ}
    → IsSizeText (trim_space s) n k
    → n ≤ max_i64
    → n * k < 2 ^ 63
    → parse_size s ≡ ok (record { value = pos (n * k); provenance = unknown })
parse_size_exact s {n} {k} t h fits =
    rw (parse_size-IsSizeText s t, le→leb n max_i64 h, wrap64_id (pos (n * k)) (fits, omega arith))

-- A size text whose number fits an int64 and whose number of bytes does not is accepted all the
-- same, with a value that is not what the text says.
pub parse_size_wraps :
    (s : Text) {n k : ℕ}
    → IsSizeText (trim_space s) n k
    → n ≤ max_i64
    → 2 ^ 63 ≤ n * k
    → (z : Size) × (parse_size s ≡ ok z) × (z.value ≢ pos (n * k))
parse_size_wraps s {n} {k} t h big = (
  record { value = wrap64 (pos (n * k)); provenance = unknown },
  rw (parse_size-IsSizeText s t, le→leb n max_i64 h),
  λ e. absurd (omega (arith, (rw e at (wrap64-IsI64 (pos (n * k)))).0)),
)
