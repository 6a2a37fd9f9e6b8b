-- ===== src/Listers.antt =====
-- The listers of configs, pkg/generated/listers/rbacsync/v1alpha. The two kinds are the same code: a
-- `Scope` tells them apart. What client-go keeps of the API is the parameter `Indexer`.
pub mod Laws
use rbacsync.Prelude.{String, ◌<>◌, Bool, Option, none, some, List, [], ◌∷◌, ◌++◌}
use rbacsync.Api.{Config}
use rbacsync.Errors.{ErrorPackage, Result, ok, err}
use rbacsync.Kube.{Scope, namespaced, cluster}

-- cache.Indexer with cache.ListAll and cache.ListAllByNamespace, which hand objects to a callback
-- and may fail after some of them; errors.NewNotFound for a resource and a name.
pub record Indexer (P : ErrorPackage) : Type 1 where
  pub Selector : Type 0
  pub list_all : Selector → List Config × Option P.Error
  pub list_all_by_namespace : String → Selector → List Config × Option P.Error
  pub get_by_key : String → Result P.Error (Option Config)
  pub new_not_found : (resource name : String) → P.Error

-- The callback of List, over all objects that it is given.
collect_configs : List Config → List Config → List Config
collect_configs [] ret = ret
collect_configs (m ∷ ms) ret = collect_configs ms (ret ++ m ∷ [])

-- The resource that an error names.
abbrev pub resource : Scope → String
resource namespaced = "rbacsyncconfig"
resource cluster = "clusterrbacsyncconfig"

-- The key under which Get looks for a config.
unfoldable pub index_key : Scope → (namespace name : String) → String
index_key namespaced namespace name = namespace <> ("/" <> name)
index_key cluster namespace name = name

module _ (P : ErrorPackage) (I : Indexer P) where
  -- List of a lister.
  unfoldable pub list_configs : I.Selector → List Config × Option P.Error
  unfolding collect_configs
  list_configs selector =
      let (objects, failure) = I.list_all selector in (collect_configs objects [], failure)

  -- List of a namespace lister.
  unfoldable pub list_configs_in : String → I.Selector → List Config × Option P.Error
  unfolding collect_configs
  list_configs_in namespace selector =
      let (objects, failure) = I.list_all_by_namespace namespace selector in
      (collect_configs objects [], failure)

  existing : Scope → String → Result P.Error (Option Config) → Result P.Error Config
  existing sc name (err e) = err e
  existing sc name (ok none) = err (I.new_not_found (resource sc) name)
  existing sc name (ok (some config)) = ok config

  -- Get
  unfoldable pub get_config : Scope → (namespace name : String) → Result P.Error Config
  unfolding existing index_key
  get_config sc namespace name = existing sc name (I.get_by_key (index_key sc namespace name))
