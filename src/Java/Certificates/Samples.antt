-- ===== src/Java/Certificates/Samples.antt =====
-- Packages and files for tests: a block is one byte, a store without a password is encoded as the
-- texts of its certificates, and nothing is a Java key store.
use jvm_vendors.Base.{ℕ, true, false, none, some, List, [], ◌∷◌, ◌++◌}
use jvm_vendors.Base.Text.{Text, codes}
use jvm_vendors.Java.Keystore.{KeystoreFile, Jks, Pkcs12, TrustStoreEntry}
use jvm_vendors.Java.Certificates.{FileSystem, is_there, no_dir, Decode, CertificateLoader}

abbrev pub decode : Decode
decode [] = none
decode (c ∷ s) = some (record { bytes = c ∷ [] }, s)

abbrev pub files : FileSystem
files = record { stat = λ p. is_there; read_dir = λ p. no_dir; read_file = λ p. some (7 ∷ 8 ∷ []) }

abbrev pub loader : CertificateLoader
loader = record { cert_file = codes "/c"; cert_dirs = [] }

abbrev pub java_store : Jks ℕ
java_store = record {
  load = λ b password. none;
  set_trusted_certificate_entry = λ s name entry. none;
  store = λ s password. ([], false);
  aliases = λ s. [];
}

abbrev pub certificates : List (TrustStoreEntry Text) → Text
certificates [] = []
certificates (e ∷ es) = e.cert ++ certificates es

abbrev pub plain_store : Pkcs12 Text
plain_store = record {
  decode_trust_store = λ b password. some (b ∷ []);
  encode_trust_store_entries = λ es password. some (certificates es);
  parse_certificate = λ b. some b;
  subject = λ c. c;
}

abbrev pub store : KeystoreFile
store = record {
  contents = some (5 ∷ []);
  writable = true;
  opens = true;
  write_bytes = λ b. (b, true);
}
