-- ===== src/Count/Location/Names.antt =====
-- The full name of a resource.
use jvm_vendors.Base.{◌≡◌, false, arith}
use jvm_vendors.Base.Int.{pos, eqb_ℤ}
use jvm_vendors.Base.Result.{ok}
use jvm_vendors.Count.Reader.{Bytes}
use jvm_vendors.Count.Strings
use jvm_vendors.Count.Strings.{Strings}
use jvm_vendors.Count.Location.{Location, full_name}

-- A resource with a module and a parent whose names can be read has the full name of the same resource without a module: the
-- parent replaces the module in front of the base name.
pub full_name-module :
    (l : Location) (strings : Strings) {m p : Bytes}
    → eqb_ℤ l.parent_offset (pos 0) ≡ false
    → Strings.get strings l.module_offset ≡ ok m
    → Strings.get strings l.parent_offset ≡ ok p
    → full_name l strings ≡ full_name (record l { module_offset = pos 0 }) strings
unfolding full_name
full_name-module l strings some_parent m p = ground arith
