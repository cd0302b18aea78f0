-- ===== src/Java/Layers.antt =====
-- NewJDK, NewJRE, NewJLink, NewNIK and NewJavaSecurityProperties: the types of the layers, and the
-- metadata by which the library tells whether a cached layer is still good; JDK.Contribute and
-- JRE.Contribute.
use jvm_vendors.Base.{Bool, true, false, Option, none, some, List, [], ◌∷◌}
use jvm_vendors.Base.Result.{Result, ok, ◌>>=◌}
use jvm_vendors.Base.Text.{Text}
use jvm_vendors.Java.Plan.{
  Metadata as PlanMetadata, DistributionType, is_build_contribution, is_launch_contribution,
}
use jvm_vendors.Versions.{Semver}
use jvm_vendors.Java.Runtime.{Machine, Configured, not_expanded, contribute_jdk, configure_jre}
use jvm_vendors.Java.Certificates.{Metadata, MetadataError}

-- `libcnb.LayerTypes`
pub record LayerTypes : Type 0 where
  pub build : Bool
  pub cache : Bool
  pub launch : Bool

-- The expected metadata: the layer's own, under one key, and that of the certificates.
pub record NewLayer (X L : Type 0) : Type 0 where
  pub expected : X
  pub certificates : Metadata L
  pub types : LayerTypes

abbrev pub build_types : LayerTypes
build_types = record { build = true; cache = true; launch = false }

-- The types that the metadata of the plan entry asks for.
unfoldable pub entry_types : PlanMetadata → LayerTypes
entry_types md = record {
  build = is_build_contribution md;
  cache = is_build_contribution md;
  launch = is_launch_contribution md;
}

module _ {L : Type 0} where
  new_layer : {X : Type 0} → X → LayerTypes → Metadata L → NewLayer X L
  new_layer x types md = record { expected = x; certificates = md; types = types }

  module _ (metadata : Result MetadataError (Metadata L)) where
    unfoldable pub new_jdk : {D : Type 0} → D → Result MetadataError (NewLayer D L)
    unfolding new_layer
    new_jdk dependency = metadata >>= (λ md. ok (new_layer dependency build_types md))

    unfoldable pub new_jre : {D : Type 0} → D → PlanMetadata → Result MetadataError (NewLayer D L)
    unfolding new_layer entry_types
    new_jre dependency entry = metadata >>= (λ md. ok (new_layer dependency (entry_types entry) md))

    unfoldable pub new_jlink :
        List Text → PlanMetadata → Result MetadataError (NewLayer (List Text) L)
    unfolding new_layer entry_types
    new_jlink args entry = metadata >>= (λ md. ok (new_layer args (entry_types entry) md))

    native_dependency : {D : Type 0} → Option D → List D
    native_dependency none = []
    native_dependency (some d) = d ∷ []

    unfoldable pub new_nik :
        {D : Type 0} → D → Option D → Result MetadataError (NewLayer (List D) L)
    unfolding new_layer native_dependency
    new_nik jdk native =
        metadata >>= (λ md. ok (new_layer (jdk ∷ native_dependency native) build_types md))

abbrev pub security_properties_types : LayerTypes
security_properties_types = record { build = false; cache = false; launch = true }

-- An archive that is not expanded leaves the layer without settings.
when_expanded : Bool → Configured → Configured
when_expanded true configured = configured
when_expanded false configured = (record { build = []; launch = [] }, some not_expanded)

module _ {V : Type 0} (sv : Semver V) (m : Machine) where
  -- JDK.Contribute
  unfoldable pub contribute_jdk_layer : Bool → Text → Text → Configured
  unfolding when_expanded
  contribute_jdk_layer extracted home version =
      when_expanded extracted (contribute_jdk sv m home version)

  -- JRE.Contribute
  unfoldable pub contribute_jre_layer :
      Bool → Text → Text → Text → DistributionType → PlanMetadata → Configured
  unfolding when_expanded
  contribute_jre_layer extracted home version application_path type entry =
      when_expanded extracted (
        configure_jre sv m (record {
          java_home = home;
          java_version = version;
          application_path = application_path;
          is_build = is_build_contribution entry;
          is_launch = is_launch_contribution entry;
          skip_certs = false;
          dist_type = type;
        }))
