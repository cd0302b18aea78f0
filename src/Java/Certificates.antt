-- ===== src/Java/Certificates.antt =====
-- certificate_loader.go: the certificates of the container are added to the key store of a Java
-- runtime. The packages pem, sha256 and sherpa, and the file system, are parameters.
pub mod Blocks
pub mod Names
pub mod Entries
pub mod Distinct
pub mod Unchanged
pub mod Loaded
pub mod JavaStore
pub mod Found
pub mod Samples
mod Tests
use jvm_vendors.Base.{
  ℕ, zero, suc, Bool, true, false, not, ◌&&◌, ◌||◌, Option, none, some, List, [], ◌∷◌, ◌++◌,
  if◌then◌else◌, ◌==◌, length,
}
use jvm_vendors.Base.Result.{Result, ok, err, ◌>>=◌, map_err}
use jvm_vendors.Base.FilePath.{join_path}
use jvm_vendors.Base.Text.{Text, codes, is_digit, within}
use jvm_vendors.Base.Text.Decimal.{decimal}
use jvm_vendors.Base.Text.Split.{split}
use jvm_vendors.Java.Keystore.{
  Bytes, Block, KeystoreError, KeystoreFile, Keystore, Jks, Pkcs12, detect_keystore, Detected,
  found_jks, found_pkcs12, jks_operations, pkcs12_operations,
}

-- CertificateLoader, without the logger.
pub record CertificateLoader : Type 0 where
  pub cert_file : Text
  pub cert_dirs : List Text

-- DefaultCertFile
abbrev pub default_cert_file : Text
default_cert_file = codes "/etc/ssl/certs/ca-certificates.crt"

-- `filepath.SplitList` on Unix.
split_list : Text → List Text
split_list [] = []
split_list (c ∷ s) = split b':' (c ∷ s)

dirs : Option Text → List Text
unfolding split_list
dirs none = []
dirs (some s) = split_list s

file_or_default : Option Text → Text
file_or_default none = default_cert_file
file_or_default (some s) = s

-- NewCertificateLoader, from SSL_CERT_FILE and SSL_CERT_DIR.
unfoldable pub new_certificate_loader : Option Text → Option Text → CertificateLoader
unfolding dirs file_or_default
new_certificate_loader file dir = record { cert_file = file_or_default file; cert_dirs = dirs dir }

-- What the file system answers: a missing file or directory is told apart from other errors.
pub data Stat : Type 0 where
  is_there missing failing : Stat

pub record DirEntry : Type 0 where
  pub name : Text
  pub is_dir : Bool

pub data ReadDir : Type 0 where
  children : List DirEntry → ReadDir
  no_dir unlistable : ReadDir

-- `os.Stat`, `os.ReadDir` and `os.ReadFile`.
pub record FileSystem : Type 0 where
  pub stat : Text → Stat
  pub read_dir : Text → ReadDir
  pub read_file : Text → Option Bytes

pub data LoadError : Type 0 where
  no_keystore : KeystoreError → LoadError
  cannot_stat : LoadError
  cannot_list : Text → LoadError
  cannot_read : Text → LoadError
  cannot_add : Text → KeystoreError → LoadError
  cannot_write : KeystoreError → LoadError

-- [[:xdigit:]]
pub is_hex_digit : ℕ → Bool
unfolding is_digit
is_hex_digit c = is_digit c || within b'A' b'F' c || within b'a' b'f' c

-- `\.[\d]$` behind so many hexadecimal digits.
hashed_name : ℕ → Text → Bool
unfolding is_hex_digit
hashed_name n [] = false
hashed_name zero (c ∷ []) = false
hashed_name zero (c ∷ d ∷ []) = c == b'.' && is_digit d
hashed_name zero (c ∷ d ∷ e ∷ s) = false
hashed_name (suc n) (c ∷ s) = is_hex_digit c && hashed_name n s

-- ^[[:xdigit:]]{8}\.[\d]$
unfoldable pub is_hashed_name : Text → Bool
unfolding hashed_name
is_hashed_name s = hashed_name 8 s

-- The files of a directory with such a name.
unfoldable pub hashed_files : Text → List DirEntry → List Text
unfolding is_hashed_name
hashed_files d [] = []
hashed_files d (e ∷ es) =
    let rest = hashed_files d es in
    if e.is_dir || not (is_hashed_name e.name) then rest else join_path (d ∷ e.name ∷ []) ∷ rest

listed : Text → ReadDir → Result LoadError (List Text)
unfolding hashed_files
listed d (children es) = ok (hashed_files d es)
listed d no_dir = ok []
listed d unlistable = err (cannot_list d)

unfoldable pub dir_files : FileSystem → List Text → Result LoadError (List Text)
unfolding listed
dir_files fs [] = ok []
dir_files fs (d ∷ ds) =
    listed d (fs.read_dir d) >>= (λ here. dir_files fs ds >>= (λ rest. ok (here ++ rest)))

stat_file : Text → Stat → Result LoadError (List Text)
stat_file f is_there = ok (f ∷ [])
stat_file f missing = ok []
stat_file f failing = err cannot_stat

-- certFiles
unfoldable pub cert_files : FileSystem → CertificateLoader → Result LoadError (List Text)
unfolding stat_file dir_files
cert_files fs l =
    stat_file l.cert_file (fs.stat l.cert_file)
    >>= (λ first. dir_files fs l.cert_dirs >>= (λ rest. ok (first ++ rest)))

-- `fmt.Sprintf("%s-%d", f, i)`
unfoldable pub certificate_name : Text → ℕ → Text
certificate_name f i = f ++ b'-' ∷ decimal i

-- `pem.Decode`: the next block and what follows it, or no block.
abbrev pub Decode : Type 0
Decode = Bytes → Option (Block × Bytes)

then_blocks : Option (Block × Bytes) → (Bytes → List Block) → List Block
then_blocks none loop = []
then_blocks (some (block, rest)) loop = block ∷ loop rest

-- The loop of readBlocks, with one unit of fuel for each call of `pem.Decode`. As each block takes
-- some bytes, one unit more than there are bytes is enough.
unfoldable pub blocks_of : Decode → ℕ → Bytes → List Block
unfolding then_blocks
blocks_of decode zero b = []
blocks_of decode (suc fuel) b = then_blocks (decode b) (λ rest. blocks_of decode fuel rest)

opened_blocks : Decode → Text → Option Bytes → Result LoadError (List Block)
unfolding blocks_of
opened_blocks decode f none = err (cannot_read f)
opened_blocks decode f (some b) = ok (blocks_of decode (suc (length b)) b)

-- readBlocks
unfoldable pub read_blocks : FileSystem → Decode → Text → Result LoadError (List Block)
unfolding opened_blocks
read_blocks fs decode f = opened_blocks decode f (fs.read_file f)

module _ {K : Type 0} (keystore : Keystore K) where
  unfoldable pub add_blocks : K → Text → ℕ → List Block → Result LoadError K
  unfolding certificate_name
  add_blocks k f i [] = ok k
  add_blocks k f i (b ∷ bs) =
      map_err (cannot_add f) (keystore.add k (certificate_name f i) b)
      >>= (λ k'. add_blocks k' f (suc i) bs)

  unfoldable pub add_files : FileSystem → Decode → K → List Text → Result LoadError K
  unfolding add_blocks read_blocks
  add_files fs decode k [] = ok k
  add_files fs decode k (f ∷ files) =
      read_blocks fs decode f
      >>= (λ bs. add_blocks k f 0 bs >>= (λ k'. add_files fs decode k' files))

  write_outcome : KeystoreFile × Option KeystoreError → KeystoreFile × Option LoadError
  write_outcome (file, none) = (file, none)
  write_outcome (file, some e) = (file, some (cannot_write e))

  unfoldable pub then_write : Result LoadError K → KeystoreFile → KeystoreFile × Option LoadError
  unfolding write_outcome
  then_write (err e) file = (file, some e)
  then_write (ok k) file = write_outcome (keystore.write k file)

  -- Load, behind the detection of the key store.
  unfoldable pub load_into :
      FileSystem → Decode → CertificateLoader → K → KeystoreFile → KeystoreFile × Option LoadError
  unfolding add_files then_write cert_files
  load_into fs decode l k file =
      then_write (cert_files fs l >>= (λ files. add_files fs decode k files)) file

module _ {S C : Type 0} (jks : Jks S) (p : Pkcs12 C) where
  unfoldable pub load_detected :
      FileSystem
      → Decode
      → CertificateLoader
      → Result KeystoreError (Detected S C)
      → KeystoreFile
      → KeystoreFile × Option LoadError
  unfolding load_into
  load_detected fs decode l (err e) file = (file, some (no_keystore e))
  load_detected fs decode l (ok (found_jks k)) file =
      load_into (jks_operations jks) fs decode l k file
  load_detected fs decode l (ok (found_pkcs12 k)) file =
      load_into (pkcs12_operations p) fs decode l k file

  -- Load
  unfoldable pub load :
      FileSystem → Decode → CertificateLoader → KeystoreFile → KeystoreFile × Option LoadError
  unfolding load_detected
  load fs decode l file = load_detected fs decode l (detect_keystore jks p file) file

-- `os.Open` and the hash of what is read: a file that is missing has no hash.
pub data Hashing : Type 0 where
  hashed : Text → Hashing
  no_file not_hashed : Hashing

pub record Metadata (L : Type 0) : Type 0 where
  pub cert_file : Option Text
  pub cert_dir : L

pub data MetadataError : Type 0 where
  cannot_hash cannot_list_dirs : MetadataError

hash_of : Hashing → Result MetadataError (Option Text)
hash_of (hashed sha) = ok (some sha)
hash_of no_file = ok none
hash_of not_hashed = err cannot_hash

listing_of : {L : Type 0} → Option Text → Option L → Result MetadataError (Metadata L)
listing_of sha none = err cannot_list_dirs
listing_of sha (some files) = ok (record { cert_file = sha; cert_dir = files })

-- Metadata; `listing` is sherpa.NewFileListing.
unfoldable pub metadata :
    {L : Type 0}
    → (Text → Hashing)
    → (List Text → Option L)
    → CertificateLoader
    → Result MetadataError (Metadata L)
unfolding hash_of listing_of
metadata hash listing l =
    hash_of (hash l.cert_file) >>= (λ sha. listing_of sha (listing l.cert_dirs))
