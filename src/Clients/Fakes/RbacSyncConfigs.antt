-- ===== src/Clients/Fakes/RbacSyncConfigs.antt =====
-- fake/fake_rbacsyncconfig.go: the fake of the client of RBACSyncConfigs of a namespace.
use rbacsync.Prelude.{String, some, Option, List}
use rbacsync.Api.{Config}
use rbacsync.Errors.{ErrorPackage, Result}
use rbacsync.Clients.{MetaOptions, ListOptions}
use rbacsync.Clients.Fakes.{
  GroupVersionResource, GroupVersionKind, Fake, get_action, list_action, watch_action,
  create_action, update_action, update_subresource_action, delete_action, delete_collection_action,
  patch_subresource_action, listed, only_error,
}

abbrev pub configs_resource : GroupVersionResource
configs_resource = record {
  group = "rbacsync.getcruise.com";
  version = "v1alpha";
  resource = "rbacsyncconfigs";
}

abbrev pub configs_kind : GroupVersionKind
configs_kind = record {
  group = "rbacsync.getcruise.com";
  version = "v1alpha";
  kind = "RBACSyncConfig";
}

module _ (P : ErrorPackage) (M : MetaOptions) (F : Fake M P) (ns : String) where
  abbrev Answer : Type 0
  Answer = (Option Config × Option P.Error) × F.State

  unfoldable pub get_config : String → M.GetOptions → F.State → Answer
  get_config name opts = F.invokes (get_action configs_resource (some ns) name)

  unfoldable pub list_configs :
      ListOptions M → F.State → (Option (F.ListMeta × List Config) × Option P.Error) × F.State
  unfolding listed
  list_configs opts s =
      listed M P F opts
        (F.invokes_list (list_action configs_resource configs_kind (some ns) opts) s)

  unfoldable pub watch_configs : ListOptions M → F.State → Result P.Error F.Watch × F.State
  watch_configs opts = F.invokes_watch (watch_action configs_resource (some ns) opts)

  unfoldable pub create_config : Config → M.CreateOptions → F.State → Answer
  create_config config opts = F.invokes (create_action configs_resource (some ns) config)

  unfoldable pub update_config : Config → M.UpdateOptions → F.State → Answer
  update_config config opts = F.invokes (update_action configs_resource (some ns) config)

  unfoldable pub update_status : Config → M.UpdateOptions → F.State → Answer
  update_status config opts =
      F.invokes (update_subresource_action configs_resource "status" (some ns) config)

  unfoldable pub delete_config : String → M.DeleteOptions → F.State → Option P.Error × F.State
  unfolding only_error
  delete_config name opts s =
      only_error M P F (F.invokes (delete_action configs_resource (some ns) name opts) s)

  unfoldable pub delete_collection :
      M.DeleteOptions → ListOptions M → F.State → Option P.Error × F.State
  unfolding only_error
  delete_collection opts list_opts s =
      only_error M P F
        (F.invokes_list (delete_collection_action configs_resource (some ns) list_opts) s)

  unfoldable pub patch_config :
      String → M.PatchType → String → M.PatchOptions → List String → F.State → Answer
  patch_config name pt bytes opts subresources =
      F.invokes (patch_subresource_action configs_resource (some ns) name pt bytes subresources)
