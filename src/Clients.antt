-- ===== src/Clients.antt =====
-- The typed clients of pkg/generated/clientset/versioned/typed/rbacsync/v1alpha and their fakes for
-- tests: what they share. A request of a client is the chain of calls of the builder of
-- k8s.io/client-go/rest; a request of a fake is an action of k8s.io/client-go/testing.
pub mod RbacSyncConfigs
pub mod ClusterRbacSyncConfigs
pub mod Fakes
pub mod Operations
pub mod Requests
pub mod Timeouts
pub mod Connections
pub mod RbacSyncV1alpha
pub mod Sets
use rbacsync.Prelude.{◌*◌, ◌%◌, ◌^◌, String, Bool, Option, none, some, List}
use rbacsync.Integers.{ℤ, pos, bits, signed}
use rbacsync.Api.{Config}
use rbacsync.Errors.{ErrorPackage, Result}

-- The options of the calls, of which the clients read two fields of ListOptions.
pub record MetaOptions : Type 1 where
  pub GetOptions : Type 0
  pub CreateOptions : Type 0
  pub UpdateOptions : Type 0
  pub DeleteOptions : Type 0
  pub PatchOptions : Type 0
  pub PatchType : Type 0
  pub OtherListOptions : Type 0

-- `time.Duration(*opts.TimeoutSeconds) * time.Second`, if the pointer is not nil. Both are int64, so
-- the product keeps its lowest 64 bits, and the highest of them is the sign.
unfoldable pub timeout_of : Option ℤ → ℤ
timeout_of none = pos 0
timeout_of (some seconds) = signed ((bits seconds * 1000000000) % 2 ^ 64)

module _ (M : MetaOptions) where
  pub record ListOptions : Type 0 where
    pub timeout_seconds : Option ℤ
    pub watch : Bool
    pub other : M.OtherListOptions

  -- What VersionedParams and Body are given.
  pub data Params : Type 0 where
    get_params : M.GetOptions → Params
    list_params : ListOptions → Params
    create_params : M.CreateOptions → Params
    update_params : M.UpdateOptions → Params
    patch_params : M.PatchOptions → Params

  pub data Body : Type 0 where
    object : Config → Body
    options : M.DeleteOptions → Body
    raw : String → Body

  -- The method that starts a chain, and the calls that follow it.
  pub data Verb : Type 0 where
    get post put delete : Verb
    patch : M.PatchType → Verb

  pub data Step : Type 0 where
    on_namespace on_resource on_name : String → Step
    on_sub_resource : List String → Step
    with_params : Params → Step
    with_timeout : ℤ → Step
    with_body : Body → Step

  pub record Request : Type 0 where
    pub verb : Verb
    pub steps : List Step

  -- The ends of a chain: `Do(ctx).Into(result)` for an object and for a list, which leaves something
  -- in the result also if it fails, `Do(ctx).Error()` and `Watch(ctx)`.
  pub record Rest (P : ErrorPackage) : Type 1 where
    pub State : Type 0
    pub ConfigList : Type 0
    pub Watch : Type 0
    pub into : Request → State → (Config × Option P.Error) × State
    pub into_list : Request → State → (ConfigList × Option P.Error) × State
    pub error : Request → State → Option P.Error × State
    pub watch : Request → State → Result P.Error Watch × State
