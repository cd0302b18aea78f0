-- ===== src/Count/Tests.antt =====
-- Reading and counting on concrete inputs.
use jvm_vendors.Base.{◌≡◌, ◌↔◌, refl, true, false, List, [], ◌∷◌, ◌++◌, arith, All}
use jvm_vendors.Base.Result.{ok}
use jvm_vendors.Base.Text.{codes}
use jvm_vendors.Count.Strings.{is_continuation, read_name}
use jvm_vendors.Count.Strings.Reading.{read_name_iff}
use jvm_vendors.Count.Location.{empty, decode}
use jvm_vendors.Count.Location.Decoding.{
  Attribute, base_at, extension_at, encode, describe, decode-encode,
}
use jvm_vendors.Count.Classes.{Step, visit, files, bad_format, jar_classes}
use jvm_vendors.Count.Classes.Names.{names, readable, classes_in, jar_classes_iff}

abbrev two_attributes : List Attribute
two_attributes =
    record { kind = base_at; bytes = 1 ∷ 44 ∷ [] }
    ∷ record { kind = extension_at; bytes = 7 ∷ [] }
    ∷ []

decode-encode_example :
    decode (encode two_attributes ++ 9 ∷ []) ≡ ok (describe empty two_attributes)
decode-encode_example = decode-encode two_attributes (9 ∷ []) (
  record { some_byte = omega arith; few_bytes = omega arith; fits = omega arith },
  (record { some_byte = omega arith; few_bytes = omega arith; fits = omega arith }, tt),
)

read_name_iff_example :
    (read_name (codes "ab" ++ 0 ∷ codes "c") ≡ ok (codes "ab"))
    ↔ All (λ c. is_continuation c ≡ false) (codes "ab")
read_name_iff_example = read_name_iff (codes "ab") (codes "c") (refl, (refl, tt))

abbrev one_class : Step
one_class = visit (record { path = codes "a/B.class"; is_dir = false; size = 10; jar = bad_format })

abbrev one_jar : Step
one_jar = visit (record {
  path = codes "lib/c.jar";
  is_dir = false;
  size = 20;
  jar = files (record { name = codes "d/E.class"; content = bad_format } ∷ []);
})

jar_classes_iff_example : (jar_classes (one_class ∷ one_jar ∷ []) ≡ ok 2) ↔ (
    (readable (one_class ∷ one_jar ∷ []) ≡ true)
    × (2 ≡ classes_in (names (one_class ∷ one_jar ∷ []))))
jar_classes_iff_example = jar_classes_iff (one_class ∷ one_jar ∷ []) 2
