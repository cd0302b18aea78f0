-- ===== src/Helper/Providers/Numbering.antt =====
-- The numbers of the providers that are written, and the index 0.
use jvm_vendors.Base.{ℕ, zero, suc, ◌+◌, ◌≡◌, arith, List, [], ◌∷◌, some, get_elem?}
use jvm_vendors.Base.Text.{Text}
use jvm_vendors.Base.Text.Decimal.{value}
use jvm_vendors.Base.Result.{err}
use jvm_vendors.Helper.Providers.{
  index_out_of_range, provider_lines, provider_line, match_provider, collect, add_match,
  place_from_one,
}

lines_from :
    (n : ℕ) (ps : List Text) (k : ℕ) {p : Text}
    → get_elem? ps k ≡ some p
    → get_elem? (provider_lines n ps) k ≡ some (provider_line (n + k + 1) p)
unfolding provider_lines
lines_from n [] k h = cc
lines_from n (p ∷ ps) zero h = let e : n + 0 + 1 ≡ n + 1 = omega arith in ground (arith, e)
lines_from n (p ∷ ps) (suc k) h =
    let e : n + suc k + 1 ≡ n + 1 + k + 1 = omega arith in rw e (lines_from (n + 1) ps k h)

-- The provider at place k of the list is written with the number k + 1.
pub provider_lines-numbered :
    (ps : List Text) (k : ℕ) {p : Text}
    → get_elem? ps k ≡ some p
    → get_elem? (provider_lines 0 ps) k ≡ some (provider_line (k + 1) p)
provider_lines-numbered ps k h =
    let e : 0 + k + 1 ≡ k + 1 = omega arith in rw e at (lines_from 0 ps k h)

-- An entry with the index 0 makes the helper fail with an index that is out of range, in whatever
-- state of the list it is met and whatever entries follow.
pub collect-zero :
    (ps : List Text) (entry : Text) (entries : List Text) {d : ℕ} {ds name : Text}
    → match_provider entry ≡ some (d ∷ ds, name)
    → value (d ∷ ds) ≡ 0
    → collect ps (entry ∷ entries) ≡ err index_out_of_range
unfolding collect add_match place_from_one
collect-zero ps entry entries h z = rw (h, z)
