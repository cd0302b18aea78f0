-- ===== src/Count/Image.antt =====
-- count/image.go, and `ModuleClasses` of count/count_classes.go: the number of classes in a jimage.
use jvm_vendors.Base.{ℕ, ◌+◌, List, [], ◌∷◌, if◌then◌else◌, Bool, false}
use jvm_vendors.Base.Int.{ℤ, pos, add32, eqb_ℤ}
use jvm_vendors.Base.Result.{Result, ok, ◌>>=◌}
use jvm_vendors.Base.Text.{codes, text_eq}
use jvm_vendors.Count.Reader.{
  Bytes, ImageError, new_header, size_of_header, Offsets, Redirects, new_offsets, new_redirects,
  size_of_offsets, size_of_redirects,
}
use jvm_vendors.Count.Strings.{Strings}
use jvm_vendors.Count.Location
use jvm_vendors.Count.Location.{Location, Locations}

pub record Image : Type 0 where
  pub major_version : ℤ
  pub minor_version : ℤ
  pub flags : ℤ
  pub resource_count : ℤ
  pub redirects : Redirects
  pub offsets : Offsets
  pub locations : Locations
  pub strings : Strings

-- The tables stand one behind the other: redirects, offsets, locations, strings.
unfoldable pub new_image : Bytes → Result ImageError Image
unfolding new_header size_of_header new_redirects new_offsets size_of_redirects size_of_offsets
    add32
new_image file = new_header file >>= λ (h, _).
    new_redirects file size_of_header h.table_length >>= λ redirects.
    new_offsets file (add32 redirects.offset (size_of_redirects redirects)) h.table_length
    >>= λ offsets.
        let locations_at = add32 offsets.offset (size_of_offsets offsets) in
        ok (record {
          major_version = h.major_version;
          minor_version = h.minor_version;
          flags = h.flags;
          resource_count = h.resource_count;
          redirects = redirects;
          offsets = offsets;
          locations = record { offset = locations_at; size = h.locations_size; reader = file };
          strings = record {
            offset = add32 locations_at h.locations_size;
            size = pos 0;
            reader = file;
          };
        })

-- Whether the resource at an offset is a class.
unfoldable pub is_class : Image → ℤ → Result ImageError Bool
is_class i o = Location.get i.locations o >>= λ l.
    if eqb_ℤ l.extension_offset (pos 0)
    then ok false
    else Location.extension l i.strings >>= λ e. ok (text_eq e (codes "class"))

count_classes : Image → ℕ → List ℤ → Result ImageError ℕ
count_classes i n [] = ok n
count_classes i n (o ∷ os) =
    is_class i o >>= λ found. count_classes i (if found then n + 1 else n) os

unfoldable pub module_classes : Bytes → Result ImageError ℕ
unfolding new_image count_classes
module_classes file = new_image file >>= λ i. count_classes i 0 i.offsets.entries
