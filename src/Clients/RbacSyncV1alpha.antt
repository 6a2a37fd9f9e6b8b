-- ===== src/Clients/RbacSyncV1alpha.antt =====
-- rbacsync_client.go of pkg/generated/clientset/versioned/typed/rbacsync/v1alpha: the client of the
-- group rbacsync.getcruise.com and its constructors. A nil pointer is `none`.
pub mod Laws
use rbacsync.Prelude.{ℕ, String, string_eq, ◌==◌, Option, none, some, if◌then◌else◌}
use rbacsync.Errors.{ErrorPackage, Result, ok, err}
use rbacsync.Clients.Connections.{
  GroupVersion, Parts, RestConfig, ClientGo, Memory, assign, shallow_copy, call, OrPanic, or_die,
}

-- v1alpha.SchemeGroupVersion
abbrev pub scheme_group_version : GroupVersion
scheme_group_version = record { group = "rbacsync.getcruise.com"; version = "v1alpha" }

module _ (P : ErrorPackage) (T : Parts) where
  -- RBACSyncV1alphaClient
  pub record RbacSyncV1alphaClient : Type 0 where
    pub rest_client : Option T.RestInterface

  -- RESTClient
  unfoldable pub rest_client : Option RbacSyncV1alphaClient → Option T.RestInterface
  rest_client none = none
  rest_client (some c) = c.rest_client

  -- rBACSyncConfigs and clusterRBACSyncConfigs
  pub record RbacSyncConfigs : Type 0 where
    pub client : Option T.RestInterface
    pub ns : String

  pub record ClusterRbacSyncConfigs : Type 0 where
    pub client : Option T.RestInterface

  -- newRBACSyncConfigs and newClusterRBACSyncConfigs, which the methods of the client call
  unfoldable pub new_rbac_sync_configs : Option RbacSyncV1alphaClient → String → RbacSyncConfigs
  unfolding rest_client
  new_rbac_sync_configs c namespace = record { client = rest_client c; ns = namespace }

  unfoldable pub new_cluster_rbac_sync_configs :
      Option RbacSyncV1alphaClient → ClusterRbacSyncConfigs
  unfolding rest_client
  new_cluster_rbac_sync_configs c = record { client = rest_client c }

  -- New
  unfoldable pub new : T.RestInterface → RbacSyncV1alphaClient
  new c = record { rest_client = some c }

  module _ (L : ClientGo T P) where
    -- setConfigDefaults
    unfoldable pub set_config_defaults : ℕ → Memory T → Option P.Error × Memory T
    set_config_defaults p m =
        let config = record (m.configs p) {
          group_version = some scheme_group_version;
          api_path = "/apis";
          negotiated_serializer = some L.without_conversion;
        } in
        (
          none,
          assign T p
              (if config.user_agent == ""
                then record config { user_agent = L.default_kubernetes_user_agent }
                else config)
              m,
        )

    made :
        Result P.Error T.RestInterface × Memory T → Result P.Error RbacSyncV1alphaClient × Memory T
    made (err e, m) = (err e, m)
    made (ok client, m) = (ok (record { rest_client = some client }), m)

    -- NewForConfigAndClient
    unfoldable pub new_for_config_and_client :
        ℕ → T.HttpClient → Memory T → Result P.Error RbacSyncV1alphaClient × Memory T
    unfolding shallow_copy set_config_defaults made
    new_for_config_and_client c h m =
        let (config, m') = shallow_copy T c m in
        let (failure, m'') = set_config_defaults config m' in
        elim failure [
          | some e ↦ (err e, m'')
          | none ↦ made (call T (λ x. L.rest_client_for x h) config m'')
        ]

    with_http :
        ℕ → Result P.Error T.HttpClient × Memory T → Result P.Error RbacSyncV1alphaClient × Memory T
    unfolding new_for_config_and_client
    with_http config (err e, m) = (err e, m)
    with_http config (ok http_client, m) = new_for_config_and_client config http_client m

    -- NewForConfig
    unfoldable pub new_for_config : ℕ → Memory T → Result P.Error RbacSyncV1alphaClient × Memory T
    unfolding shallow_copy set_config_defaults with_http
    new_for_config c m =
        let (config, m') = shallow_copy T c m in
        let (failure, m'') = set_config_defaults config m' in
        elim failure [
          | some e ↦ (err e, m'')
          | none ↦ with_http config (call T L.http_client_for config m'')
        ]

    -- NewForConfigOrDie
    unfoldable pub new_for_config_or_die :
        ℕ → Memory T → OrPanic P.Error RbacSyncV1alphaClient × Memory T
    unfolding new_for_config or_die
    new_for_config_or_die c m = or_die T (new_for_config c m)
