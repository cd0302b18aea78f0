-- ===== src/Helper/TrustStore.antt =====
-- helper/openssl_certificate_loader.go: at the start of a container its certificates are added to the
-- key store of the JVM, or to a copy of it where that cannot be written.
pub mod Given
pub mod Faults
mod Tests
use jvm_vendors.Base.{Bool, true, false, Option, none, some, [], ◌∷◌, ◌++◌, if◌then◌else◌}
use jvm_vendors.Base.Result.{Result, ok, err}
use jvm_vendors.Base.Text.{Text, codes}
use jvm_vendors.Helper.Env.{
  Env, Variables, HelperError, missing_variable, cannot_load, Sherpa, java_tool_options,
}
use jvm_vendors.Java.Keystore.{Bytes, KeystoreFile}
use jvm_vendors.Java.Certificates.{LoadError}

-- The two files: that of BPI_JVM_CACERTS and the one in the temporary directory.
pub record Stores : Type 0 where
  pub given : KeystoreFile
  pub temporary : KeystoreFile

-- CertificateLoader.Load
abbrev pub Loader : Type 0
Loader = KeystoreFile → KeystoreFile × Option LoadError

-- `sherpa.CopyFile`: what it makes of the file that it copies to, and whether it succeeds.
abbrev pub CopyFile : Type 0
CopyFile = Bytes → KeystoreFile → KeystoreFile × Bool

loaded : Variables → Option LoadError → Result HelperError Variables
loaded variables none = ok variables
loaded variables (some e) = err cannot_load

load_given : Stores → KeystoreFile × Option LoadError → Stores × Result HelperError Variables
unfolding loaded
load_given s (file, e) = (record s { given = file }, loaded [] e)

load_temporary :
    Variables → Stores → KeystoreFile × Option LoadError → Stores × Result HelperError Variables
unfolding loaded
load_temporary variables s (file, e) = (record s { temporary = file }, loaded variables e)

trust_store_option : Text → Text
trust_store_option path = codes "-Djavax.net.ssl.trustStore=" ++ path

-- A copy that fails is a warning.
after_copy :
    Sherpa
    → Loader
    → Env
    → Text
    → Stores
    → KeystoreFile × Bool
    → Stores × Result HelperError Variables
unfolding load_temporary trust_store_option
after_copy sherpa load env tmp s (copied, false) = (record s { temporary = copied }, ok [])
after_copy sherpa load env tmp s (copied, true) =
    let options =
      sherpa.append_to_env_var env java_tool_options (codes " ") (trust_store_option tmp ∷ []) in
    load_temporary ((java_tool_options, options) ∷ []) s (load copied)

-- prepareTempTrustStore, and the load of the copy.
copy_and_load :
    Sherpa
    → Loader
    → CopyFile
    → Env
    → Text
    → Stores
    → Option Bytes
    → Stores × Result HelperError Variables
unfolding after_copy
copy_and_load sherpa load copy env tmp s none = (s, ok [])
copy_and_load sherpa load copy env tmp s (some b) =
    after_copy sherpa load env tmp s (copy b s.temporary)

with_cacerts :
    Sherpa
    → Loader
    → CopyFile
    → Env
    → Text
    → Stores
    → Option Text
    → Stores × Result HelperError Variables
unfolding copy_and_load load_given
with_cacerts sherpa load copy env tmp s none = (s, err (missing_variable "BPI_JVM_CACERTS"))
with_cacerts sherpa load copy env tmp s (some path) =
    if s.given.writable
    then load_given s (load s.given)
    else copy_and_load sherpa load copy env tmp s s.given.contents

-- `Execute`; `tmp` is the path of TmpTrustStore.
unfoldable pub execute :
    Sherpa → Loader → CopyFile → Env → Text → Stores → Stores × Result HelperError Variables
unfolding with_cacerts
execute sherpa load copy env tmp s = with_cacerts sherpa load copy env tmp s (env "BPI_JVM_CACERTS")
