-- ===== src/Base/Files.antt =====
-- Files that are read whole.
use jvm_vendors.Base.Text.{Text}

-- `os.ReadFile`
pub data FileRead : Type 0 where
  contents : Text → FileRead
  not_found unreadable : FileRead
