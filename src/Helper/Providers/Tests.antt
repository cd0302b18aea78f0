-- ===== src/Helper/Providers/Tests.antt =====
-- The configurer on concrete entries.
use jvm_vendors.Calc.Size.{split_digits}
use jvm_vendors.Base.{◌≡◌, refl, List, [], ◌∷◌}
use jvm_vendors.Base.Result.{ok}
use jvm_vendors.Base.Text.{is_digit, Text, codes}
use jvm_vendors.Base.Text.Decimal.{value_from}
use jvm_vendors.Helper.Providers.{
  pad, shift, is_word, word_run, put_in, collect, match_provider, place,
}

abbrev entries : List Text
entries = codes "1|A" ∷ codes "2|B" ∷ codes "1|C" ∷ codes "D" ∷ []

collected : collect [] entries ≡ ok (codes "C" ∷ codes "A" ∷ codes "B" ∷ codes "D" ∷ [])
unfolding collect match_provider split_digits is_digit word_run is_word value_from place put_in pad
    shift
collected = refl
