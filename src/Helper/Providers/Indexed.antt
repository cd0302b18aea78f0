-- ===== src/Helper/Providers/Indexed.antt =====
-- The entries that a runtime layer records, as the configurer reads them.
use jvm_vendors.Base.{ℕ, ◌≡◌, refl, true, false, some, [], ◌∷◌, ◌++◌, All}
use jvm_vendors.Base.Text.{Text, is_digit}
use jvm_vendors.Base.Text.Decimal.{IsDigit}
use jvm_vendors.Calc.Size.Grammar.{split_digits-append}
use jvm_vendors.Helper.Providers.{is_word, word_run, named, or_else, indexed, match_provider}

word_run-words : (w : Text) → All (λ c. is_word c ≡ true) w → word_run w ≡ w
unfolding word_run
word_run-words [] h = refl
word_run-words (c ∷ w) (hc, hw) = rw (hc, word_run-words w hw)

bar_no_digit : is_digit b'|' ≡ false
unfolding is_digit
bar_no_digit = refl

-- An entry of digits, a bar and a name without other characters is read as that index and that name.
pub match_provider-indexed :
    (d : ℕ) (ds : Text) (c : ℕ) (w : Text)
    → All IsDigit (d ∷ ds)
    → All (λ x. is_word x ≡ true) (c ∷ w)
    → match_provider ((d ∷ ds) ++ b'|' ∷ c ∷ w) ≡ some (d ∷ ds, c ∷ w)
unfolding match_provider named or_else indexed
match_provider-indexed d ds c w hd hw =
    rw (split_digits-append (d ∷ ds) (b'|' ∷ c ∷ w) hd bar_no_digit, word_run-words (c ∷ w) hw) refl
