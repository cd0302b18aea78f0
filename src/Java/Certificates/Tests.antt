-- ===== src/Java/Certificates/Tests.antt =====
-- The load of two certificates into a store without a password.
use jvm_vendors.Base.{map, true, ◌≡◌, ◌⊎◌, refl, none, some, List, [], ◌∷◌, ◌++◌, ◌↔◌, arith}
use jvm_vendors.Base.Result.{ok}
use jvm_vendors.Base.Text.{Text, codes}
use jvm_vendors.Java.Keystore.{
  Bytes, KeystoreFile, Jks, new_jks_keystore, add_jks, write_jks, add_pkcs12,
  new_passwordless_keystore, write_pkcs12, Block, with_contents, is_jks, detect_keystore,
}
use jvm_vendors.Java.Certificates.{cert_files, load, read_blocks}
use jvm_vendors.Java.Certificates.Samples.{decode, files, loader, java_store, plain_store, store}
use jvm_vendors.Java.Certificates.Distinct.{IsOnce, load-HasOwnNames}
use jvm_vendors.Java.Certificates.Blocks.{Decodes, IsShrinking, read_blocks-Decodes}
use jvm_vendors.Java.Certificates.Unchanged.{MayChange, load-unchanged}
use jvm_vendors.Java.Certificates.JavaStore.{IsStored, load-IsStored}
use jvm_vendors.Java.Certificates.Found.{Single, Lists, cert_files_iff}
use jvm_vendors.Java.Certificates.Loaded.{IsLoaded, load-IsLoaded}

decode-IsShrinking : IsShrinking decode
unfolding IsShrinking
decode-IsShrinking [] block rest h = cc
decode-IsShrinking (c ∷ s) block rest h = let e : s ≡ rest = cc in rw (← e) (omega arith)

read_blocks-Decodes_example :
    (bs : List Block) × (read_blocks files decode (codes "/c") ≡ ok bs)
    × Decodes decode (7 ∷ 8 ∷ []) bs
read_blocks-Decodes_example =
    read_blocks-Decodes decode decode-IsShrinking files (codes "/c") (7 ∷ 8 ∷ []) refl

loaded :
    load java_store plain_store files decode loader store
    ≡ (with_contents store (5 ∷ 7 ∷ 8 ∷ []), none)
unfolding load detect_keystore new_passwordless_keystore add_pkcs12 write_pkcs12
loaded = refl

load-IsLoaded_example :
    IsLoaded java_store plain_store files decode loader store
      (with_contents store (5 ∷ 7 ∷ 8 ∷ []))
      (5 ∷ [])
unfolding is_jks
load-IsLoaded_example =
    load-IsLoaded java_store plain_store files decode loader store (5 ∷ []) refl refl refl loaded

load-unchanged_example :
    MayChange java_store plain_store files decode loader store none
    ⊎ (with_contents store (5 ∷ 7 ∷ 8 ∷ []) ≡ store)
load-unchanged_example = load-unchanged java_store plain_store files decode loader store loaded

found_files : cert_files files loader ≡ ok (codes "/c" ∷ [])
unfolding cert_files
found_files = refl

one_file-IsOnce : IsOnce (codes "/c" ∷ [])
unfolding IsOnce
one_file-IsOnce = (tt, tt)

load-HasOwnNames_example :
    (more : IsLoaded java_store plain_store files decode loader store
      (with_contents store (5 ∷ 7 ∷ 8 ∷ []))
      (5 ∷ []))
    × IsOnce (map (λ e. e.friendly_name) more.new)
unfolding is_jks
load-HasOwnNames_example =
    load-HasOwnNames java_store plain_store files decode loader store (codes "/c" ∷ []) (5 ∷ [])
      found_files one_file-IsOnce refl refl refl loaded

-- A Java key store is its bytes, and any password opens it.
abbrev byte_store : Jks Bytes
byte_store = record {
  load = λ b password. some b;
  set_trusted_certificate_entry = λ s name entry. some (s ++ entry.content);
  store = λ s password. (s, true);
  aliases = λ s. [];
}

abbrev magic : Bytes
magic = 0xFE ∷ 0xED ∷ 0xFE ∷ 0xED ∷ []

abbrev java_file : KeystoreFile
java_file = record store { contents = some magic }

stored :
    load byte_store plain_store files decode loader java_file
    ≡ (with_contents java_file (magic ++ 7 ∷ 8 ∷ []), none)
unfolding load detect_keystore new_jks_keystore add_jks write_jks is_jks
stored = refl

load-IsStored_example :
    IsStored byte_store plain_store files decode loader java_file
      (with_contents java_file (magic ++ 7 ∷ 8 ∷ []))
      magic
unfolding is_jks
load-IsStored_example =
    load-IsStored byte_store plain_store files decode loader java_file magic refl refl refl stored

cert_files_iff_example : (cert_files files loader ≡ ok (codes "/c" ∷ [])) ↔ (
    (first : List Text) × (rest : List Text) × Single files loader.cert_file first
    × Lists files loader.cert_dirs rest
    × (codes "/c" ∷ [] ≡ first ++ rest))
cert_files_iff_example = cert_files_iff files loader (codes "/c" ∷ [])
