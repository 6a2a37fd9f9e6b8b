-- ===== src/Clients/RbacSyncConfigs.antt =====
-- rbacsyncconfig.go: the client of RBACSyncConfigs of a namespace.
use rbacsync.Prelude.{String, true, Option, List, [], ◌∷◌}
use rbacsync.Api.{Config}
use rbacsync.Errors.{ErrorPackage, Result}
use rbacsync.Clients.{
  MetaOptions, ListOptions, Rest, timeout_of, get_params, list_params, create_params, update_params,
  patch_params, object, options, raw, get, post, put, delete, patch, on_namespace, on_resource,
  on_name, on_sub_resource, with_params, with_timeout, with_body,
}

module _ (P : ErrorPackage) (M : MetaOptions) (R : Rest M P) (ns : String) where
  abbrev Answer : Type 0
  Answer = (Config × Option P.Error) × R.State

  unfoldable pub get_config : String → M.GetOptions → R.State → Answer
  get_config name opts = R.into (record {
    verb = get;
    steps =
        on_namespace ns
        ∷ on_resource "rbacsyncconfigs"
        ∷ on_name name
        ∷ with_params (get_params opts)
        ∷ [];
  })

  unfoldable pub list_configs : ListOptions M → R.State → (R.ConfigList × Option P.Error) × R.State
  list_configs opts =
      let timeout = timeout_of opts.timeout_seconds in
      R.into_list (record {
        verb = get;
        steps =
            on_namespace ns
            ∷ on_resource "rbacsyncconfigs"
            ∷ with_params (list_params opts)
            ∷ with_timeout timeout
            ∷ [];
      })

  unfoldable pub watch_configs : ListOptions M → R.State → Result P.Error R.Watch × R.State
  watch_configs opts =
      let timeout = timeout_of opts.timeout_seconds in
      R.watch (record {
        verb = get;
        steps =
            on_namespace ns
            ∷ on_resource "rbacsyncconfigs"
            ∷ with_params (list_params (record opts { watch = true }))
            ∷ with_timeout timeout
            ∷ [];
      })

  unfoldable pub create_config : Config → M.CreateOptions → R.State → Answer
  create_config config opts = R.into (record {
    verb = post;
    steps =
        on_namespace ns
        ∷ on_resource "rbacsyncconfigs"
        ∷ with_params (create_params opts)
        ∷ with_body (object config)
        ∷ [];
  })

  unfoldable pub update_config : Config → M.UpdateOptions → R.State → Answer
  update_config config opts = R.into (record {
    verb = put;
    steps =
        on_namespace ns
        ∷ on_resource "rbacsyncconfigs"
        ∷ on_name config.metadata.name
        ∷ with_params (update_params opts)
        ∷ with_body (object config)
        ∷ [];
  })

  unfoldable pub update_status : Config → M.UpdateOptions → R.State → Answer
  update_status config opts = R.into (record {
    verb = put;
    steps =
        on_namespace ns
        ∷ on_resource "rbacsyncconfigs"
        ∷ on_name config.metadata.name
        ∷ on_sub_resource ("status" ∷ [])
        ∷ with_params (update_params opts)
        ∷ with_body (object config)
        ∷ [];
  })

  unfoldable pub delete_config : String → M.DeleteOptions → R.State → Option P.Error × R.State
  delete_config name opts = R.error (record {
    verb = delete;
    steps =
        on_namespace ns
        ∷ on_resource "rbacsyncconfigs"
        ∷ on_name name
        ∷ with_body (options opts)
        ∷ [];
  })

  unfoldable pub delete_collection :
      M.DeleteOptions → ListOptions M → R.State → Option P.Error × R.State
  delete_collection opts list_opts =
      let timeout = timeout_of list_opts.timeout_seconds in
      R.error (record {
        verb = delete;
        steps =
            on_namespace ns
            ∷ on_resource "rbacsyncconfigs"
            ∷ with_params (list_params list_opts)
            ∷ with_timeout timeout
            ∷ with_body (options opts)
            ∷ [];
      })

  unfoldable pub patch_config :
      String → M.PatchType → String → M.PatchOptions → List String → R.State → Answer
  patch_config name pt bytes opts subresources = R.into (record {
    verb = patch pt;
    steps =
        on_namespace ns
        ∷ on_resource "rbacsyncconfigs"
        ∷ on_name name
        ∷ on_sub_resource subresources
        ∷ with_params (patch_params opts)
        ∷ with_body (raw bytes)
        ∷ [];
  })
