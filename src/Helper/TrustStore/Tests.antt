-- ===== src/Helper/TrustStore/Tests.antt =====
-- A store that the process may write.
use jvm_vendors.Base.{◌≡◌, ◌⊎◌, true, some}
use jvm_vendors.Base.Text.{codes}
use jvm_vendors.Base.Result.{Result}
use jvm_vendors.Helper.Samples.{sherpa}
use jvm_vendors.Helper.Env.{Env, HelperError, Variables}
use jvm_vendors.Java.Certificates.{load}
use jvm_vendors.Java.Certificates.Samples.{decode, files, loader, java_store, plain_store, store}
use jvm_vendors.Helper.TrustStore.{Stores, CopyFile, execute}
use jvm_vendors.Helper.TrustStore.Given.{MayChangeGiven, execute-given}

abbrev copy : CopyFile
copy b file = (file, true)

abbrev env : Env
env k = some (codes "/cacerts")

abbrev stores : Stores
stores = record { given = store; temporary = store }

abbrev result : Stores × Result HelperError Variables
result =
    execute sherpa (load java_store plain_store files decode loader) copy env (codes "/tmp") stores

execute-given_example :
    (result.0.given ≡ store)
    ⊎ MayChangeGiven store (load java_store plain_store files decode loader store).1 result.1
execute-given_example =
    execute-given java_store plain_store files decode loader sherpa copy env (codes "/tmp") stores
