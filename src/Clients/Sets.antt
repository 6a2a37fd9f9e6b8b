-- ===== src/Clients/Sets.antt =====
-- pkg/generated/clientset/versioned/clientset.go: the set of the clients and its constructors.
pub mod Laws
pub mod Sharing
use rbacsync.Prelude.{ℕ, String, Bool, true, false, ◌&&◌, not, Option, none, some, if◌then◌else◌}
use rbacsync.Errors.{ErrorPackage, Result, ok, err}
use rbacsync.Integers.{is_positive}
use rbacsync.Clients.Connections.{
  Parts, RestConfig, ClientGo, Memory, assign, shallow_copy, call, OrPanic, or_die,
}
use rbacsync.Clients.RbacSyncV1alpha
use rbacsync.Clients.RbacSyncV1alpha.{RbacSyncV1alphaClient}

abbrev pub is_none : {A : Type 0} → Option A → Bool
is_none none = true
is_none (some a) = false

abbrev pub burst_required : String
burst_required =
    "burst is required to be greater than 0 when RateLimiter is not set and QPS is set to greater than 0"

module _ (P : ErrorPackage) (T : Parts) where
  -- Clientset
  pub record Clientset : Type 0 where
    pub discovery_client : T.DiscoveryClient
    pub rbac_sync_v1alpha_client : RbacSyncV1alphaClient P T

  -- The methods Discovery and RBACSyncV1alpha
  unfoldable pub discovery : Option Clientset → Option T.DiscoveryClient
  discovery none = none
  discovery (some c) = some c.discovery_client

  unfoldable pub rbac_sync_v1alpha : Clientset → RbacSyncV1alphaClient P T
  rbac_sync_v1alpha c = c.rbac_sync_v1alpha_client

  module _ (L : ClientGo T P) where
    with_discovery :
        RbacSyncV1alphaClient P T
        → Result P.Error T.DiscoveryClient × Memory T
        → Result P.Error Clientset × Memory T
    with_discovery client (err e, m) = (err e, m)
    with_discovery client (ok d, m) =
        (ok (record { discovery_client = d; rbac_sync_v1alpha_client = client }), m)

    with_client :
        ℕ
        → T.HttpClient
        → Result P.Error (RbacSyncV1alphaClient P T) × Memory T
        → Result P.Error Clientset × Memory T
    unfolding with_discovery
    with_client config h (err e, m) = (err e, m)
    with_client config h (ok client, m) =
        with_discovery client (call T (λ x. L.discovery_client_for x h) config m)

    -- The two clients, from the config with its rate limiter.
    clients : ℕ → T.HttpClient → Memory T → Result P.Error Clientset × Memory T
    unfolding with_client RbacSyncV1alpha.new_for_config_and_client
    clients config h m =
        with_client config h (RbacSyncV1alpha.new_for_config_and_client P T L config h m)

    -- `config.RateLimiter = flowcontrol.NewTokenBucketRateLimiter(config.QPS, config.Burst)`
    limit : ℕ → Memory T → Memory T
    limit p m =
        let config = m.configs p in
        let (limiter, w) = L.new_token_bucket_rate_limiter config.qps config.burst m.outside in
        assign T p (record config { rate_limiter = some limiter }) (record m { outside = w })

    -- NewForConfigAndClient
    unfoldable pub new_for_config_and_client :
        ℕ → T.HttpClient → Memory T → Result P.Error Clientset × Memory T
    unfolding shallow_copy clients limit
    new_for_config_and_client c h m =
        let (copy, m') = shallow_copy T c m in
        let config = m'.configs copy in
        if is_none config.rate_limiter && L.above_zero config.qps
        then (if not (is_positive config.burst)
            then (err (L.errorf burst_required), m')
            else clients copy h (limit copy m'))
        else clients copy h m'

    with_http : ℕ → Result P.Error T.HttpClient × Memory T → Result P.Error Clientset × Memory T
    unfolding new_for_config_and_client
    with_http config (err e, m) = (err e, m)
    with_http config (ok http_client, m) = new_for_config_and_client config http_client m

    -- NewForConfig
    unfoldable pub new_for_config : ℕ → Memory T → Result P.Error Clientset × Memory T
    unfolding shallow_copy with_http
    new_for_config c m =
        let (copy, m') = shallow_copy T c m in with_http copy (call T L.http_client_for copy m')

    -- NewForConfigOrDie
    unfoldable pub new_for_config_or_die : ℕ → Memory T → OrPanic P.Error Clientset × Memory T
    unfolding new_for_config or_die
    new_for_config_or_die c m = or_die T (new_for_config c m)

    -- New
    unfoldable pub new : T.RestInterface → Clientset
    unfolding RbacSyncV1alpha.new
    new c = record {
      discovery_client = L.new_discovery_client c;
      rbac_sync_v1alpha_client = RbacSyncV1alpha.new P T c;
    }
