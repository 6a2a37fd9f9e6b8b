-- ===== src/Clients/Fakes/ClusterRbacSyncConfigs.antt =====
-- fake/fake_clusterrbacsyncconfig.go: the fake of the client of ClusterRBACSyncConfigs.
use rbacsync.Prelude.{String, none, Option, List}
use rbacsync.Api.{Config}
use rbacsync.Errors.{ErrorPackage, Result}
use rbacsync.Clients.{MetaOptions, ListOptions}
use rbacsync.Clients.Fakes.{
  GroupVersionResource, GroupVersionKind, Fake, get_action, list_action, watch_action,
  create_action, update_action, update_subresource_action, delete_action, delete_collection_action,
  patch_subresource_action, listed, only_error,
}

abbrev pub configs_resource : GroupVersionResource
configs_resource = record {
  group = "rbacsync.getcruise.com";
  version = "v1alpha";
  resource = "clusterrbacsyncconfigs";
}

abbrev pub configs_kind : GroupVersionKind
configs_kind = record {
  group = "rbacsync.getcruise.com";
  version = "v1alpha";
  kind = "ClusterRBACSyncConfig";
}

module _ (P : ErrorPackage) (M : MetaOptions) (F : Fake M P) where
  abbrev Answer : Type 0
  Answer = (Option Config × Option P.Error) × F.State

  unfoldable pub get_config : String → M.GetOptions → F.State → Answer
  get_config name opts = F.invokes (get_action configs_resource none name)

  unfoldable pub list_configs :
      ListOptions M → F.State → (Option (F.ListMeta × List Config) × Option P.Error) × F.State
  unfolding listed
  list_configs opts s =
      listed M P F opts (F.invokes_list (list_action configs_resource configs_kind none opts) s)

  unfoldable pub watch_configs : ListOptions M → F.State → Result P.Error F.Watch × F.State
  watch_configs opts = F.invokes_watch (watch_action configs_resource none opts)

  unfoldable pub create_config : Config → M.CreateOptions → F.State → Answer
  create_config config opts = F.invokes (create_action configs_resource none config)

  unfoldable pub update_config : Config → M.UpdateOptions → F.State → Answer
  update_config config opts = F.invokes (update_action configs_resource none config)

  unfoldable pub update_status : Config → M.UpdateOptions → F.State → Answer
  update_status config opts =
      F.invokes (update_subresource_action configs_resource "status" none config)

  unfoldable pub delete_config : String → M.DeleteOptions → F.State → Option P.Error × F.State
  unfolding only_error
  delete_config name opts s =
      only_error M P F (F.invokes (delete_action configs_resource none name opts) s)

  unfoldable pub delete_collection :
      M.DeleteOptions → ListOptions M → F.State → Option P.Error × F.State
  unfolding only_error
  delete_collection opts list_opts s =
      only_error M P F (F.invokes_list (delete_collection_action configs_resource none list_opts) s)

  unfoldable pub patch_config :
      String → M.PatchType → String → M.PatchOptions → List String → F.State → Answer
  patch_config name pt bytes opts subresources =
      F.invokes (patch_subresource_action configs_resource none name pt bytes subresources)
