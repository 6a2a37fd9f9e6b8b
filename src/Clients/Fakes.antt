-- ===== src/Clients/Fakes.antt =====
-- The fakes of the clients, which hand each call as an action to the tracker of
-- k8s.io/client-go/testing.
pub mod RbacSyncConfigs
pub mod ClusterRbacSyncConfigs
pub mod Sets
use rbacsync.Prelude.{String, Bool, Option, none, some, List, [], ◌∷◌, ◌++◌, if◌then◌else◌}
use rbacsync.Api.{Config}
use rbacsync.Errors.{ErrorPackage, Result}
use rbacsync.Clients.{MetaOptions, ListOptions}

pub record GroupVersionResource : Type 0 where
  pub group : String
  pub version : String
  pub resource : String

pub record GroupVersionKind : Type 0 where
  pub group : String
  pub version : String
  pub kind : String

module _ (M : MetaOptions) where
  -- The actions New…Action with a namespace, and NewRoot…Action without one.
  pub data Action : Type 0 where
    get_action : GroupVersionResource → Option String → String → Action
    list_action : GroupVersionResource → GroupVersionKind → Option String → ListOptions M → Action
    watch_action : GroupVersionResource → Option String → ListOptions M → Action
    create_action update_action : GroupVersionResource → Option String → Config → Action
    update_subresource_action : GroupVersionResource → String → Option String → Config → Action
    delete_action : GroupVersionResource → Option String → String → M.DeleteOptions → Action
    delete_collection_action : GroupVersionResource → Option String → ListOptions M → Action
    patch_subresource_action :
        GroupVersionResource → Option String → String → M.PatchType → String → List String → Action

  -- testing.Fake, with `none` for a nil object, and what List reads of the options, of the label
  -- selectors and of the list.
  pub record Fake (P : ErrorPackage) : Type 1 where
    pub State : Type 0
    pub ListMeta : Type 0
    pub Watch : Type 0
    pub Selector : Type 0
    pub invokes : Action → State → (Option Config × Option P.Error) × State
    pub invokes_list : Action → State → (Option (ListMeta × List Config) × Option P.Error) × State
    pub invokes_watch : Action → State → Result P.Error Watch × State
    pub extract_label : ListOptions M → Option Selector
    pub everything : Selector
    pub matches : Selector → Config → Bool

  module _ (P : ErrorPackage) (F : Fake P) where
    -- The label of the options, or else `labels.Everything()`.
    unfoldable pub label_of : ListOptions M → F.Selector
    label_of opts = elim (F.extract_label opts) [ none ↦ F.everything | some label ↦ label ]

    -- The loop of List over the items.
    unfoldable pub select_items : F.Selector → List Config → List Config → List Config
    select_items label [] items = items
    select_items label (item ∷ rest) items =
        select_items label rest (if F.matches label item then items ++ item ∷ [] else items)

    -- What List makes of the answer.
    unfoldable pub listed :
        ListOptions M
        → (Option (F.ListMeta × List Config) × Option P.Error) × F.State
        → (Option (F.ListMeta × List Config) × Option P.Error) × F.State
    unfolding label_of select_items
    listed opts ((none, failure), s) = ((none, failure), s)
    listed opts ((some (meta, items), failure), s) =
        ((some (meta, select_items (label_of opts) items []), failure), s)

    -- A call whose answer is an error alone.
    unfoldable pub only_error :
        {A : Type 0} → (Option A × Option P.Error) × F.State → Option P.Error × F.State
    only_error ((obj, failure), s) = (failure, s)
