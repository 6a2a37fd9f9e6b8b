-- ===== src/Controller/Cleanup.antt =====
-- The end of handleConfig and handleClusterConfig, which deletes the objects of the config that no
-- binding stands for any more, and the handlers as a whole.
pub mod Loop
pub mod Refusals
pub mod Truth
use rbacsync.Prelude.{
  String, string_eq, Bool, true, false, not, Option, none, some, List, [], ◌∷◌, contains,
  if◌then◌else◌,
}
use rbacsync.Api.{ObjectMeta, Config, RbacSyncConfig, ClusterRbacSyncConfig}
use rbacsync.Errors.{ErrorPackage, Result, ok, err, Arg, text, error}
use rbacsync.Groups.{Grouper}
use rbacsync.Groups.Subjects.{MapOrder}
use rbacsync.Kube.{Kube, Scope, namespaced, cluster, BoundRole}
use rbacsync.Controller.Effects.{
  normal, warning, binding_deleted, binding_error, log_error, binding_status, binding_kind, World,
  emit, report,
}
use rbacsync.Controller.Resolve.{resolve_groups}
use rbacsync.Controller.Bindings.{Object, namespace_of, full_name, bind_all}

abbrev not_owned_format : Scope → String
not_owned_format namespaced = "%v/%v selected by query but not owned by RBACSyncConfig %v/%v"
not_owned_format cluster = "%v selected by query but not owned by ClusterRBACSyncConfig %v"

abbrev not_deleted_format : Scope → String
not_deleted_format namespaced = "RoleBinding %v/%v could not be deleted: %v"
not_deleted_format cluster = "ClusterRoleBinding %v could not be deleted: %v"

abbrev deleted_format : Scope → String
deleted_format namespaced = "RoleBinding %v/%v deleted"
deleted_format cluster = "ClusterRoleBinding %v deleted"

abbrev selector_format : Scope → String
selector_format namespaced = "error building child selector on %v/%v"
selector_format cluster = "error building child selector on %v"

abbrev list_format : Scope → String
list_format namespaced = "failed to list role bindings for cleanup"
list_format cluster = "failed to list cluster role bindings for cleanup"

module _ (P : ErrorPackage) (K : Kube P) (U : Type 0) where
  -- buildChildSelector
  unfoldable pub build_child_selector : String → Result P.Error K.Selector
  build_child_selector owner = elim (K.new_requirement "owner" (owner ∷ [])) [
    | err e ↦ err e
    | ok requirement ↦ ok (K.add K.new_selector requirement)
  ]

  module _ (sc : Scope) (config : Config) where
    -- After the call of Delete: an object that was gone already counts as deleted.
    deleted : Object P K U sc → Option P.Error → World P K U → World P K U
    unfolding report
    deleted object failure w =
        let success =
          report P K U normal binding_deleted (deleted_format sc)
            (full_name sc object.namespace object.name []) binding_status (binding_kind sc) w in
        elim failure [
          | none ↦ success
          | some e ↦
              if not (K.is_not_found e)
              then report P K U warning binding_error (not_deleted_format sc)
                  (full_name sc object.namespace object.name (error e ∷ [])) binding_status
                  (binding_kind sc) w
              else success
        ]

    -- The body of the loop over the selected objects.
    unfoldable pub clean_one : List String → Object P K U sc → World P K U → World P K U
    unfolding emit deleted namespace_of
    clean_one active object w =
        if not (K.is_controlled_by object config.metadata)
        then emit P K U
            (log_error (not_owned_format sc) (
              full_name sc object.namespace object.name
                (full_name sc config.metadata.namespace config.metadata.name [])))
            w
        else if contains active object.name
        then w
        else (let (failure, server) = K.delete sc (namespace_of sc config) object.name w.server in
            deleted object failure (record w { server = server }))

    -- The loop.
    unfoldable pub clean_all : List String → List (Object P K U sc) → World P K U → World P K U
    unfolding clean_one
    clean_all active [] w = w
    clean_all active (object ∷ objects) w = clean_all active objects (clean_one active object w)

    clean_selected : List String → K.Selector → World P K U → Option P.Error × World P K U
    unfolding clean_all namespace_of
    clean_selected active selector w = elim (K.list sc (namespace_of sc config) selector w.server) [
      | err e ↦ (some (P.wrapf e (list_format sc) []), w)
      | ok objects ↦ (none, clean_all active objects w)
    ]

    -- From the selector to the end of the handler.
    unfoldable pub clean_up : List String → World P K U → Option P.Error × World P K U
    unfolding build_child_selector clean_selected
    clean_up active w = elim (build_child_selector config.metadata.name) [
      | err e ↦ (
        some (
            P.wrapf e (selector_format sc)
              (full_name sc config.metadata.namespace config.metadata.name [])),
        w,
      )
      | ok selector ↦ clean_selected active selector w
    ]

    -- The handler, given the groups that the config resolves to.
    unfoldable pub handle : Grouper P U → World P K U → Option P.Error × World P K U
    unfolding bind_all clean_up
    handle gm w =
        let (active, w') = bind_all P K U sc config gm config.spec.bindings [] w in
        clean_up active w'

  module _ (o : MapOrder) (grouper : Option (Grouper P U)) where
    -- handleConfig: an error, if there is one, and the world after it
    unfoldable pub handle_config : RbacSyncConfig → World P K U → Option P.Error × World P K U
    unfolding handle resolve_groups
    handle_config config =
        handle namespaced config (resolve_groups o P U grouper config.spec.memberships)

    -- handleClusterConfig
    unfoldable pub handle_cluster_config :
        ClusterRbacSyncConfig → World P K U → Option P.Error × World P K U
    unfolding handle resolve_groups
    handle_cluster_config config =
        handle cluster config (resolve_groups o P U grouper config.spec.memberships)
