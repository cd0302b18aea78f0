-- ===== src/Java/Sdkman.antt =====
-- sdkman.go: the entries of a file .sdkmanrc.
pub mod Entries
use jvm_vendors.Base.{
  ℕ, ◌≡◌, refl, Bool, true, false, Option, none, some, List, [], ◌∷◌, if◌then◌else◌, is_nil,
}
use jvm_vendors.Base.Result.{Result, ok, err, ◌>>=◌}
use jvm_vendors.Base.Text.{Text, codes, trim_space, lower}
use jvm_vendors.Base.Text.Split.{split, cut}
use jvm_vendors.Base.Files.{FileRead, contents, not_found, unreadable}

pub record SdkInfo : Type 0 where
  pub kind : Text
  pub version : Text
  pub vendor : Text

-- `file_missing` is os.ErrNotExist, which the wrapping of errors keeps.
pub data SdkError : Type 0 where
  file_missing file_unreadable : SdkError
  no_key_value : Text → SdkError

abbrev pub is_blank : Text → Bool
is_blank s = is_nil (trim_space s)

or_none : Option Text → Text
or_none none = []
or_none (some s) = s

module _ (other : ℕ → ℕ) where
  info : Text → Text × Option Text → SdkInfo
  info key (version, vendor) = record {
    kind = lower other (trim_space key);
    version = trim_space version;
    vendor = lower other (trim_space (or_none vendor));
  }

  -- The value is split at its first `-`; a blank value has neither version nor vendor.
  entry : Text → Text → SdkInfo
  unfolding info or_none
  entry key value = info key (if is_blank value then ([], none) else cut b'-' value)

  key_value : Text → Text × Option Text → Result SdkError (Option SdkInfo)
  key_value line (key, none) = err (no_key_value line)
  key_value line (key, some value) = ok (some (entry key value))

  -- One line of the file, without its comment; a blank line has no entry.
  unfoldable pub read_line : Text → Result SdkError (Option SdkInfo)
  unfolding key_value entry
  read_line line =
      if is_blank line
      then ok none
      else let text = (cut b'#' line).0 in
        if is_blank text then ok none else key_value text (cut b'=' text)

  append_entry : Option SdkInfo → List SdkInfo → List SdkInfo
  append_entry none sdks = sdks
  append_entry (some sdk) sdks = sdk ∷ sdks

  unfoldable pub read_lines : List Text → Result SdkError (List SdkInfo)
  unfolding append_entry
  read_lines [] = ok []
  read_lines (line ∷ lines) =
      read_line line >>= λ sdk. read_lines lines >>= λ sdks. ok (append_entry sdk sdks)

  -- `ReadSDKMANRC`
  unfoldable pub read_sdkmanrc : FileRead → Result SdkError (List SdkInfo)
  read_sdkmanrc (contents s) = read_lines (split b'\n' s)
  read_sdkmanrc not_found = err file_missing
  read_sdkmanrc unreadable = err file_unreadable
