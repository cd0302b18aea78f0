-- ===== src/Java/Manifest.antt =====
-- manifest.go: the manifest of an application or of a jar, in the form of a properties file. The
-- packages zip and properties are parameters.
pub mod Folding
pub mod Unfolding
mod Tests
use jvm_vendors.Base.{ℕ, Option, none, some, List, [], ◌∷◌}
use jvm_vendors.Base.Result.{Result, ok, err}
use jvm_vendors.Base.FilePath.{join_path}
use jvm_vendors.Base.Text.{Text, codes}
use jvm_vendors.Base.Text.Replace.{replace_all}

abbrev pub lf : ℕ
lf = b'\n'

abbrev pub cr : ℕ
cr = b'\r'

-- A file that is opened, with what is read of it, where none is an error.
pub data Opened : Type 0 where
  opened : Option Text → Opened
  not_there not_opened : Opened

pub data ManifestError : Type 0 where
  cannot_open cannot_open_jar cannot_read cannot_parse : ManifestError

-- Windows line endings, those of old systems, and then the continued lines.
unfoldable pub normalize : Text → Text
normalize s =
    replace_all (lf ∷ b' ' ∷ []) []
      (replace_all (cr ∷ []) (lf ∷ []) (replace_all (cr ∷ lf ∷ []) (lf ∷ []) s))

-- `properties.Load` and the empty properties.
module _ {P : Type 0} (load_properties : Text → Option P) (new_properties : P) where
  parsed : Option P → Result ManifestError P
  parsed none = err cannot_parse
  parsed (some p) = ok p

  -- loadManifest, of what is read.
  unfoldable pub load_manifest : Option Text → Result ManifestError P
  unfolding parsed normalize
  load_manifest none = err cannot_read
  load_manifest (some s) = parsed (load_properties (normalize s))

  opened_manifest : ManifestError → Opened → Result ManifestError P
  unfolding load_manifest
  opened_manifest e not_there = ok new_properties
  opened_manifest e not_opened = err e
  opened_manifest e (opened s) = load_manifest s

  -- NewManifest; `open_file` is `os.Open`.
  unfoldable pub new_manifest : (Text → Opened) → Text → Result ManifestError P
  unfolding opened_manifest
  new_manifest open_file application_path =
      opened_manifest cannot_open
        (open_file (join_path (application_path ∷ codes "META-INF" ∷ codes "MANIFEST.MF" ∷ [])))

  in_jar : Option (Text → Opened) → Result ManifestError P
  unfolding opened_manifest
  in_jar none = err cannot_open_jar
  in_jar (some entry) = opened_manifest cannot_read (entry (codes "META-INF/MANIFEST.MF"))

  -- NewManifestFromJAR; a jar that opens is a function of the names in it.
  unfoldable pub new_manifest_from_jar :
      (Text → Option (Text → Opened)) → Text → Result ManifestError P
  unfolding in_jar
  new_manifest_from_jar open_jar path = in_jar (open_jar path)
