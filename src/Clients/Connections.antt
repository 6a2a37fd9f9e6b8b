-- ===== src/Clients/Connections.antt =====
-- What the constructors of the clients in pkg/generated/clientset/versioned use of k8s.io/client-go,
-- and the rest.Configs in memory: the constructors are given a pointer to one and copy it.
pub mod Laws
use rbacsync.Prelude.{ℕ, suc, String, nat_eq, ◌==◌, Bool, true, false, not, Option, if◌then◌else◌}
use rbacsync.Integers.{ℤ}
use rbacsync.Errors.{ErrorPackage, Result, ok, err}

-- schema.GroupVersion
pub record GroupVersion : Type 0 where
  pub group : String
  pub version : String

-- How a function ends that panics on an error.
pub data OrPanic (E A : Type 0) : Type 0 where
  returned : A → OrPanic E A
  panicked : E → OrPanic E A

pub record Parts : Type 1 where
  -- float32, flowcontrol.RateLimiter, runtime.NegotiatedSerializer, and the fields of a rest.Config
  -- that the constructors leave alone
  pub Float : Type 0
  pub RateLimiter : Type 0
  pub Serializer : Type 0
  pub Settings : Type 0
  -- *http.Client, rest.Interface and *discovery.DiscoveryClient
  pub HttpClient : Type 0
  pub RestInterface : Type 0
  pub DiscoveryClient : Type 0
  -- The world that the calls of client-go read and change.
  pub Outside : Type 0

module _ (T : Parts) where
  -- rest.Config
  pub record RestConfig : Type 0 where
    pub group_version : Option GroupVersion
    pub api_path : String
    pub negotiated_serializer : Option T.Serializer
    pub user_agent : String
    pub qps : T.Float
    pub burst : ℤ
    pub rate_limiter : Option T.RateLimiter
    pub settings : T.Settings

  pub record ClientGo (P : ErrorPackage) : Type 0 where
    -- fmt.Errorf of a text without arguments; `> 0` on float32
    pub errorf : String → P.Error
    pub above_zero : T.Float → Bool
    -- scheme.Codecs.WithoutConversion, rest.DefaultKubernetesUserAgent
    pub without_conversion : T.Serializer
    pub default_kubernetes_user_agent : String
    -- flowcontrol.NewTokenBucketRateLimiter
    pub new_token_bucket_rate_limiter : T.Float → ℤ → T.Outside → T.RateLimiter × T.Outside
    -- rest.HTTPClientFor, rest.RESTClientForConfigAndClient
    pub http_client_for : RestConfig → T.Outside → Result P.Error T.HttpClient × T.Outside
    pub rest_client_for :
        RestConfig → T.HttpClient → T.Outside → Result P.Error T.RestInterface × T.Outside
    -- discovery.NewDiscoveryClientForConfigAndClient, discovery.NewDiscoveryClient
    pub discovery_client_for :
        RestConfig → T.HttpClient → T.Outside → Result P.Error T.DiscoveryClient × T.Outside
    pub new_discovery_client : T.RestInterface → T.DiscoveryClient

  -- The rest.Configs by their addresses; those from `next` on are free.
  pub record Memory : Type 0 where
    pub next : ℕ
    pub configs : ℕ → RestConfig
    pub outside : T.Outside

  -- `*p = c`
  abbrev pub assign : ℕ → RestConfig → Memory → Memory
  assign p c m = record m { configs = λ q. if q == p then c else m.configs q }

  -- `copy := *p`, with the address of the copy
  unfoldable pub shallow_copy : ℕ → Memory → ℕ × Memory
  shallow_copy p m = (m.next, record (assign m.next (m.configs p) m) { next = suc m.next })

  -- A call of client-go that is given the pointer.
  abbrev pub call :
      {A : Type 0} → (RestConfig → T.Outside → A × T.Outside) → ℕ → Memory → A × Memory
  call f p m = let (a, w) = f (m.configs p) m.outside in (a, record m { outside = w })

  -- `if err != nil { panic(err) }`
  unfoldable pub or_die : {E A : Type 0} → Result E A × Memory → OrPanic E A × Memory
  or_die (ok a, m) = (returned a, m)
  or_die (err e, m) = (panicked e, m)
