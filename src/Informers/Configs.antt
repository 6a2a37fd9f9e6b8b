-- ===== src/Informers/Configs.antt =====
-- The informers of the two kinds of configs in pkg/generated/informers/externalversions, how they
-- list and watch through the typed clients, and ForResource of the factory.
pub mod Laws
use rbacsync.Prelude.{
  String, string_eq, ◌==◌, ◌&&◌, Bool, Option, none, some, List, [], ◌∷◌, if◌then◌else◌,
}
use rbacsync.Errors.{ErrorPackage, Result}
use rbacsync.Clients.{MetaOptions, ListOptions, Rest}
use rbacsync.Clients.RbacSyncConfigs
use rbacsync.Clients.ClusterRbacSyncConfigs
use rbacsync.Clients.Fakes.{GroupVersionResource}
use rbacsync.Informers.{SharedInformerFactory, informer_for}

module _ (P : ErrorPackage) (M : MetaOptions) (R : Rest M P) (Duration : Type 0) where
  -- cache.ListWatch with its two functions
  pub record ListWatch : Type 0 where
    pub list : ListOptions M → R.State → (R.ConfigList × Option P.Error) × R.State
    pub watch : ListOptions M → R.State → Result P.Error R.Watch × R.State

  -- What cache.NewSharedIndexInformer is given.
  pub record SharedIndexInformer : Type 0 where
    pub list_watch : ListWatch
    pub object_type : String
    pub resync_period : Duration
    pub indexers : List String

  -- TweakListOptionsFunc, which changes the options it is given; `none` is nil
  abbrev pub Tweak : Type 0
  Tweak = ListOptions M → ListOptions M

  abbrev pub tweaked : Option Tweak → ListOptions M → ListOptions M
  tweaked none options = options
  tweaked (some tweak) options = tweak options

  -- NewFilteredRBACSyncConfigInformer
  unfoldable pub new_filtered_rbac_sync_config_informer :
      String → Duration → List String → Option Tweak → SharedIndexInformer
  unfolding RbacSyncConfigs.list_configs RbacSyncConfigs.watch_configs
  new_filtered_rbac_sync_config_informer namespace resync_period indexers tweak = record {
    list_watch = record {
      list = λ options. RbacSyncConfigs.list_configs P M R namespace (tweaked tweak options);
      watch = λ options. RbacSyncConfigs.watch_configs P M R namespace (tweaked tweak options);
    };
    object_type = "RBACSyncConfig";
    resync_period = resync_period;
    indexers = indexers;
  }

  -- NewRBACSyncConfigInformer
  unfoldable pub new_rbac_sync_config_informer :
      String → Duration → List String → SharedIndexInformer
  unfolding new_filtered_rbac_sync_config_informer
  new_rbac_sync_config_informer namespace resync_period indexers =
      new_filtered_rbac_sync_config_informer namespace resync_period indexers none

  -- NewFilteredClusterRBACSyncConfigInformer
  unfoldable pub new_filtered_cluster_rbac_sync_config_informer :
      Duration → List String → Option Tweak → SharedIndexInformer
  unfolding ClusterRbacSyncConfigs.list_configs ClusterRbacSyncConfigs.watch_configs
  new_filtered_cluster_rbac_sync_config_informer resync_period indexers tweak = record {
    list_watch = record {
      list = λ options. ClusterRbacSyncConfigs.list_configs P M R (tweaked tweak options);
      watch = λ options. ClusterRbacSyncConfigs.watch_configs P M R (tweaked tweak options);
    };
    object_type = "ClusterRBACSyncConfig";
    resync_period = resync_period;
    indexers = indexers;
  }

  -- NewClusterRBACSyncConfigInformer
  unfoldable pub new_cluster_rbac_sync_config_informer :
      Duration → List String → SharedIndexInformer
  unfolding new_filtered_cluster_rbac_sync_config_informer
  new_cluster_rbac_sync_config_informer resync_period indexers =
      new_filtered_cluster_rbac_sync_config_informer resync_period indexers none

  -- The clientset is the connection `R`.
  abbrev pub Factory : Type 0
  Factory = SharedInformerFactory (Unit {0}) SharedIndexInformer Duration Tweak

  -- defaultInformer and Informer of a rBACSyncConfigInformer, which has the factory's namespace and
  -- tweak
  abbrev default_informer : Factory → Unit {0} → Duration → SharedIndexInformer
  default_informer f client resync_period =
      new_filtered_rbac_sync_config_informer f.namespace resync_period ("namespace" ∷ [])
        f.tweak_list_options

  unfoldable pub informer : Factory → SharedIndexInformer × Factory
  unfolding informer_for new_filtered_rbac_sync_config_informer
  informer f =
      informer_for (Unit {0}) SharedIndexInformer Duration Tweak "RBACSyncConfig"
        (default_informer f) f

  -- defaultInformer and Informer of a clusterRBACSyncConfigInformer
  abbrev cluster_default_informer : Factory → Unit {0} → Duration → SharedIndexInformer
  cluster_default_informer f client resync_period =
      new_filtered_cluster_rbac_sync_config_informer resync_period ("namespace" ∷ [])
        f.tweak_list_options

  unfoldable pub cluster_informer : Factory → SharedIndexInformer × Factory
  unfolding informer_for new_filtered_cluster_rbac_sync_config_informer
  cluster_informer f =
      informer_for (Unit {0}) SharedIndexInformer Duration Tweak "ClusterRBACSyncConfig"
        (cluster_default_informer f) f

  -- genericInformer: a group and a resource
  pub record GenericInformer : Type 0 where
    pub group : String
    pub resource : String
    pub informer : SharedIndexInformer

  generic : GroupVersionResource → SharedIndexInformer × Factory → GenericInformer × Factory
  generic r (i, f) = (record { group = r.group; resource = r.resource; informer = i }, f)

  is_resource : String → GroupVersionResource → Bool
  is_resource name r =
      (r.group == "rbacsync.getcruise.com") && ((r.version == "v1alpha") && (r.resource == name))

  -- ForResource, or none for its error
  unfoldable pub for_resource : GroupVersionResource → Factory → Option (GenericInformer × Factory)
  unfolding generic is_resource informer cluster_informer
  for_resource r f =
      if is_resource "clusterrbacsyncconfigs" r
      then some (generic r (cluster_informer f))
      else if is_resource "rbacsyncconfigs" r
      then some (generic r (informer f))
      else none
