-- ===== src/Java/Keystore.antt =====
-- keystore.go: the two kinds of key store that a Java runtime comes with, the detection of the kind,
-- and the writing of the file. The packages keystore-go, go-pkcs12 and x509 are parameters.
pub mod Written
pub mod Detection
pub mod JavaStore
use jvm_vendors.Base.{
  ℕ, Bool, true, false, not, ◌&&◌, Option, none, some, List, [], ◌∷◌, ◌++◌, if◌then◌else◌, ◌==◌,
  map, length, is_nil,
}
use jvm_vendors.Base.Result.{Result, ok, err, ◌>>=◌}
use jvm_vendors.Base.Text.{Text, codes}

abbrev pub Bytes : Type 0
Bytes = List ℕ

-- `pem.Block`, of which only the bytes are used.
pub record Block : Type 0 where
  pub bytes : Bytes

pub data KeystoreError : Type 0 where
  unreadable empty_keystore undecodable not_added not_opened not_encoded not_written : KeystoreError

-- The file of the key store: its bytes, where none is a file that cannot be read; whether the
-- process may write it; whether it opens for writing; and what it holds after some bytes are
-- written into the emptied file, and whether that succeeded.
pub record KeystoreFile : Type 0 where
  pub contents : Option Bytes
  pub writable : Bool
  pub opens : Bool
  pub write_bytes : Bytes → Bytes × Bool

abbrev pub with_contents : KeystoreFile → Bytes → KeystoreFile
with_contents file b = record file { contents = some b }

-- Keystore
pub record Keystore (K : Type 0) : Type 0 where
  pub add : K → Text → Block → Result KeystoreError K
  pub write : K → KeystoreFile → KeystoreFile × Option KeystoreError

-- The fields of `time.Date`.
pub record DateTime : Type 0 where
  pub year : ℕ
  pub month : ℕ
  pub day : ℕ
  pub hour : ℕ
  pub minute : ℕ
  pub second : ℕ

-- NormalizedDateTime
abbrev pub normalized_date_time : DateTime
normalized_date_time = record { year = 1980; month = 1; day = 1; hour = 0; minute = 0; second = 1 }

-- `keystore.TrustedCertificateEntry`
pub record TrustedCertificateEntry : Type 0 where
  pub creation_time : DateTime
  pub certificate_type : Text
  pub content : Bytes

-- keystore-go: reading a store with its password, setting an entry, and what is written of a store,
-- with whether that succeeded.
pub record Jks (S : Type 0) : Type 0 where
  pub load : Bytes → Text → Option S
  pub set_trusted_certificate_entry : S → Text → TrustedCertificateEntry → Option S
  pub store : S → Text → Bytes × Bool
  pub aliases : S → List Text

-- JKSKeystore
pub record JksKeystore (S : Type 0) : Type 0 where
  pub password : Text
  pub store : S

-- The emptied file behind the write of some bytes, which are a whole encoding or what there is of
-- one that failed.
held_after : KeystoreFile → Bytes × Bool → Bool → KeystoreFile × Option KeystoreError
held_after file (held, true) true = (with_contents file held, none)
held_after file (held, false) true = (with_contents file held, some not_written)
held_after file (held, success) false = (with_contents file held, some not_encoded)

opened_file : Bool → KeystoreFile → Bytes × Bool → KeystoreFile × Option KeystoreError
unfolding held_after
opened_file false file encoded = (file, some not_opened)
opened_file true file (b, whole) = held_after file (file.write_bytes b) whole

-- A file that the process may not write is left alone, without an error.
unfoldable pub write_file : KeystoreFile → Bytes × Bool → KeystoreFile × Option KeystoreError
unfolding opened_file
write_file file encoded =
    if not file.writable then (file, none) else opened_file file.opens file encoded

module _ {S : Type 0} (jks : Jks S) where
  decoded_jks : Text → Option S → Result KeystoreError (JksKeystore S)
  decoded_jks password none = err undecodable
  decoded_jks password (some s) = ok (record { password = password; store = s })

  -- NewJKSKeystore
  unfoldable pub new_jks_keystore : Bytes → Text → Result KeystoreError (JksKeystore S)
  unfolding decoded_jks
  new_jks_keystore b password = decoded_jks password (jks.load b password)

  added_jks : JksKeystore S → Option S → Result KeystoreError (JksKeystore S)
  added_jks k none = err not_added
  added_jks k (some s) = ok (record k { store = s })

  unfoldable pub add_jks : JksKeystore S → Text → Block → Result KeystoreError (JksKeystore S)
  unfolding added_jks
  add_jks k name b = added_jks k (
      jks.set_trusted_certificate_entry k.store name (record {
        creation_time = normalized_date_time;
        certificate_type = codes "X.509";
        content = b.bytes;
      }))

  unfoldable pub write_jks : JksKeystore S → KeystoreFile → KeystoreFile × Option KeystoreError
  unfolding write_file
  write_jks k file = write_file file (jks.store k.store k.password)

  abbrev pub jks_operations : Keystore (JksKeystore S)
  jks_operations = record { add = add_jks; write = write_jks }

  -- JKSKeystore.Len
  unfoldable pub len_jks : JksKeystore S → ℕ
  len_jks k = length (jks.aliases k.store)

-- `pkcs12.TrustStoreEntry`
pub record TrustStoreEntry (C : Type 0) : Type 0 where
  pub cert : C
  pub friendly_name : Text

-- go-pkcs12 with the password, and x509.
pub record Pkcs12 (C : Type 0) : Type 0 where
  pub decode_trust_store : Bytes → Text → Option (List C)
  pub encode_trust_store_entries : List (TrustStoreEntry C) → Text → Option Bytes
  pub parse_certificate : Bytes → Option C
  pub subject : C → Text

-- PasswordLessPKCS12Keystore
pub record PasswordlessKeystore (C : Type 0) : Type 0 where
  pub entries : List (TrustStoreEntry C)

-- The bytes of an encoding; one that failed wrote nothing.
abbrev pub encoding : Option Bytes → Bytes × Bool
encoding none = ([], false)
encoding (some b) = (b, true)

module _ {C : Type 0} (p : Pkcs12 C) where
  abbrev pub subject_entry : C → TrustStoreEntry C
  subject_entry c = record { cert = c; friendly_name = p.subject c }

  decoded_pkcs12 : Option (List C) → Result KeystoreError (PasswordlessKeystore C)
  decoded_pkcs12 none = err undecodable
  decoded_pkcs12 (some cs) = ok (record { entries = map subject_entry cs })

  -- NewPasswordLessPKCS12Keystore
  unfoldable pub new_passwordless_keystore : Bytes → Result KeystoreError (PasswordlessKeystore C)
  unfolding decoded_pkcs12
  new_passwordless_keystore b = decoded_pkcs12 (p.decode_trust_store b [])

  added_pkcs12 :
      PasswordlessKeystore C → Text → Option C → Result KeystoreError (PasswordlessKeystore C)
  added_pkcs12 k name none = err not_added
  added_pkcs12 k name (some c) =
      ok (record { entries = k.entries ++ record { cert = c; friendly_name = name } ∷ [] })

  unfoldable pub add_pkcs12 :
      PasswordlessKeystore C → Text → Block → Result KeystoreError (PasswordlessKeystore C)
  unfolding added_pkcs12
  add_pkcs12 k name b = added_pkcs12 k name (p.parse_certificate b.bytes)

  unfoldable pub write_pkcs12 :
      PasswordlessKeystore C → KeystoreFile → KeystoreFile × Option KeystoreError
  unfolding write_file
  write_pkcs12 k file = write_file file (encoding (p.encode_trust_store_entries k.entries []))

  abbrev pub pkcs12_operations : Keystore (PasswordlessKeystore C)
  pkcs12_operations = record { add = add_pkcs12; write = write_pkcs12 }

  -- PasswordLessPKCS12Keystore.Len
  unfoldable pub len_pkcs12 : PasswordlessKeystore C → ℕ
  len_pkcs12 k = length k.entries

-- The magic number at the front of a Java key store.
unfoldable pub is_jks : Bytes → Bool
is_jks (a ∷ b ∷ c ∷ d ∷ rest) = a == 0xFE && (b == 0xED && (c == 0xFE && d == 0xED))
is_jks (a ∷ b ∷ c ∷ []) = false
is_jks (a ∷ b ∷ []) = false
is_jks (a ∷ []) = false
is_jks [] = false

pub data Detected (S C : Type 0) : Type 0 where
  found_jks : JksKeystore S → Detected S C
  found_pkcs12 : PasswordlessKeystore C → Detected S C

module _ {S C : Type 0} (jks : Jks S) (p : Pkcs12 C) where
  detect_bytes : Bytes → Result KeystoreError (Detected S C)
  unfolding is_jks
  detect_bytes b =
      if is_nil b
      then err empty_keystore
      else if is_jks b
      then new_jks_keystore jks b (codes "changeit") >>= (λ k. ok (found_jks k))
      else new_passwordless_keystore p b >>= (λ k. ok (found_pkcs12 k))

  read_bytes : Option Bytes → Result KeystoreError (Detected S C)
  unfolding detect_bytes
  read_bytes none = err unreadable
  read_bytes (some b) = detect_bytes b

  -- DetectKeystore
  unfoldable pub detect_keystore : KeystoreFile → Result KeystoreError (Detected S C)
  unfolding read_bytes
  detect_keystore file = read_bytes file.contents
