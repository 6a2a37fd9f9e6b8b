-- ===== src/Informers/Interfaces.antt =====
-- RBACSync of the factory, rbacsync/interface.go and rbacsync/v1alpha/interface.go of
-- pkg/generated/informers/externalversions: how one comes from the factory to the informer of a kind
-- of configs.
use rbacsync.Prelude.{String, Option, [], ◌∷◌, ◌≡◌, refl}
use rbacsync.Errors.{ErrorPackage}
use rbacsync.Clients.{MetaOptions, Rest}
use rbacsync.Informers.{informer_for}
use rbacsync.Informers.Configs.{
  SharedIndexInformer, Tweak, Factory, new_filtered_rbac_sync_config_informer,
  new_filtered_cluster_rbac_sync_config_informer, informer, cluster_informer,
}

module _ (P : ErrorPackage) (M : MetaOptions) (R : Rest M P) (Duration : Type 0) where
  abbrev Made : Type 0
  Made = SharedIndexInformer P M R Duration

  -- group and version, which have the same fields
  pub record Group : Type 0 where
    pub factory : Factory P M R Duration
    pub namespace : String
    pub tweak_list_options : Option (Tweak P M R Duration)

  pub record Version : Type 0 where
    pub factory : Factory P M R Duration
    pub namespace : String
    pub tweak_list_options : Option (Tweak P M R Duration)

  -- rBACSyncConfigInformer and clusterRBACSyncConfigInformer
  pub record RbacSyncConfigInformer : Type 0 where
    pub factory : Factory P M R Duration
    pub tweak_list_options : Option (Tweak P M R Duration)
    pub namespace : String

  pub record ClusterRbacSyncConfigInformer : Type 0 where
    pub factory : Factory P M R Duration
    pub tweak_list_options : Option (Tweak P M R Duration)

  -- The functions New of the two packages.
  unfoldable pub new_group : Factory P M R Duration → String → Option (Tweak P M R Duration) → Group
  new_group f namespace tweak = record {
    factory = f;
    namespace = namespace;
    tweak_list_options = tweak;
  }

  unfoldable pub new_version :
      Factory P M R Duration → String → Option (Tweak P M R Duration) → Version
  new_version f namespace tweak = record {
    factory = f;
    namespace = namespace;
    tweak_list_options = tweak;
  }

  -- RBACSync
  unfoldable pub rbac_sync : Factory P M R Duration → Group
  unfolding new_group
  rbac_sync f = new_group f f.namespace f.tweak_list_options

  -- V1alpha
  unfoldable pub v1alpha : Group → Version
  unfolding new_version
  v1alpha g = new_version g.factory g.namespace g.tweak_list_options

  -- RBACSyncConfigs and ClusterRBACSyncConfigs
  unfoldable pub config_informer : Version → RbacSyncConfigInformer
  config_informer v = record {
    factory = v.factory;
    tweak_list_options = v.tweak_list_options;
    namespace = v.namespace;
  }

  unfoldable pub cluster_config_informer : Version → ClusterRbacSyncConfigInformer
  cluster_config_informer v = record {
    factory = v.factory;
    tweak_list_options = v.tweak_list_options;
  }

  -- The methods defaultInformer and Informer of the two.
  default_of : RbacSyncConfigInformer → Unit {0} → Duration → Made
  unfolding new_filtered_rbac_sync_config_informer
  default_of f client resync_period =
      new_filtered_rbac_sync_config_informer P M R Duration f.namespace resync_period
        ("namespace" ∷ []) f.tweak_list_options

  unfoldable pub informer_of : RbacSyncConfigInformer → Made × Factory P M R Duration
  unfolding informer_for default_of
  informer_of f =
      informer_for (Unit {0}) Made Duration (Tweak P M R Duration) "RBACSyncConfig" (default_of f)
        f.factory

  cluster_default_of : ClusterRbacSyncConfigInformer → Unit {0} → Duration → Made
  unfolding new_filtered_cluster_rbac_sync_config_informer
  cluster_default_of f client resync_period =
      new_filtered_cluster_rbac_sync_config_informer P M R Duration resync_period ("namespace" ∷ [])
        f.tweak_list_options

  unfoldable pub cluster_informer_of : ClusterRbacSyncConfigInformer → Made × Factory P M R Duration
  unfolding informer_for cluster_default_of
  cluster_informer_of f =
      informer_for (Unit {0}) Made Duration (Tweak P M R Duration) "ClusterRBACSyncConfig"
        (cluster_default_of f) f.factory

  -- On the way from the factory to its informers nothing of the namespace and the tweak is lost.
  informers_lem :
      (f : Factory P M R Duration)
      → (informer_of (config_informer (v1alpha (rbac_sync f))) ≡ informer P M R Duration f)
        × (cluster_informer_of (cluster_config_informer (v1alpha (rbac_sync f)))
            ≡ cluster_informer P M R Duration f)
  unfolding informer_of cluster_informer_of default_of cluster_default_of config_informer
      cluster_config_informer v1alpha rbac_sync informer cluster_informer new_version new_group
  informers_lem f = (refl, refl)
