-- ===== src/Controller/Bindings.antt =====
-- The loop of handleConfig and handleClusterConfig over the bindings of a config, and
-- createOrUpdateRoleBinding and createOrUpdateClusterRoleBinding.
pub mod Writes
pub mod Loop
pub mod Names
pub mod Reports
pub mod Truth
pub mod Configured
use rbacsync.Prelude.{
  String, string_eq, ◌<>◌, ◌==◌, Bool, true, false, ◌||◌, List, [], ◌∷◌, contains, if◌then◌else◌,
}
use rbacsync.Api.{Subject, Binding, Config}
use rbacsync.Errors.{
  ErrorPackage, Result, ok, err, Arg, text, error, is_not_found, is_unknown_memberships,
}
use rbacsync.Groups.{Grouper, Reply}
use rbacsync.Kube.{Kube, Scope, namespaced, cluster, BoundRole}
use rbacsync.Controller.Effects.{
  EventType, normal, warning, binding_configured, binding_duplicated, binding_warning,
  binding_error, unknown_group, config_status, binding_status, config_kind, binding_kind, World,
  report,
}

-- The kinds of role that a config of this scope may bind.
unfoldable pub kind_is_valid : Scope → String → Bool
kind_is_valid namespaced kind = kind == "Role" || kind == "ClusterRole"
kind_is_valid cluster kind = kind == "ClusterRole"

-- The namespace of the client: cluster scoped objects have none.
unfoldable pub namespace_of : Scope → Config → String
namespace_of namespaced config = config.metadata.namespace
namespace_of cluster config = ""

-- The name of the object that a binding stands for.
unfoldable pub bound_name : Config → Binding → String
bound_name config binding =
    config.metadata.name <> ("-" <> (binding.group <> ("-" <> binding.role_ref.name)))

abbrev invalid_kind_format : Scope → String
invalid_kind_format namespaced =
    "RoleRef kind %q invalid for RBACSyncConfig on group %q, use only Role or ClusterRole"
invalid_kind_format cluster =
    "RoleRef kind %q invalid for ClusterRBACSyncConfig on group %q, use only ClusterRole"

abbrev no_members_format : Scope → String
no_members_format namespaced = "%v/%v has no members for group %v"
no_members_format cluster = "%v has no members for group %v"

abbrev write_failed_format : Scope → String
write_failed_format namespaced = "unable to update or create RoleBinding %v/%v: %v"
write_failed_format cluster = "unable to update or create ClusterRoleBinding %v: %v"

abbrev configured_format : Scope → String
configured_format namespaced = "RoleBinding %v/%v configured"
configured_format cluster = "ClusterRoleBinding %v configured"

abbrev updating_format : Scope → String
updating_format namespaced = "updating object %v/%v failed"
updating_format cluster = "updating object %v failed"

abbrev creating_format : Scope → String
creating_format namespaced = "creating object %v/%v failed"
creating_format cluster = "creating object %v failed"

-- An object is named in a message with its namespace, if it has one.
abbrev pub full_name : {E : Type 0} → Scope → String → String → List (Arg E) → List (Arg E)
full_name namespaced namespace name rest = text namespace ∷ text name ∷ rest
full_name cluster namespace name rest = text name ∷ rest

module _ (P : ErrorPackage) (K : Kube P) (U : Type 0) (sc : Scope) where
  abbrev pub Object : Type 0
  Object = BoundRole K.OwnerReference

  -- The object for a binding with members.
  unfoldable pub object_for : Config → Binding → List Subject → Object
  unfolding bound_name namespace_of
  object_for config binding members = record {
    name = bound_name config binding;
    namespace = namespace_of sc config;
    owner_references =
        K.new_controller_ref config.metadata "rbacsync.getcruise.com" "v1alpha" (config_kind sc)
        ∷ [];
    labels = ("owner", config.metadata.name) ∷ [];
    annotations = ("rbacsync.getcruise.com/group", binding.group) ∷ [];
    subjects = members;
    role_ref = binding.role_ref;
  }

  created_or : Object → Result P.Error Object → Result P.Error Object
  created_or object (ok returned) = ok returned
  created_or object (err e) =
      err (P.wrapf e (creating_format sc) (full_name sc object.namespace object.name []))

  -- createOrUpdateRoleBinding and createOrUpdateClusterRoleBinding
  unfoldable pub create_or_update : Object → K.State → Result P.Error Object × K.State
  unfolding created_or
  create_or_update object s =
      let (updated, s') = K.update sc object s in
      elim updated [
        | ok returned ↦ (ok returned, s')
        | err e ↦
            if K.is_not_found e
            then (let (created, s'') = K.create sc object s' in (created_or object created, s''))
            else (
              err (P.wrapf e (updating_format sc) (full_name sc object.namespace object.name [])),
              s',
            )
      ]

  module _ (config : Config) where
    -- After the write: the name is marked only if the write went well.
    written : Object → Result P.Error Object → List String → World P K U → List String × World P K U
    unfolding report
    written object (err e) active w = (
      active,
      report P K U warning binding_error (write_failed_format sc)
          (full_name sc object.namespace object.name (error e ∷ [])) binding_status
          (binding_kind sc) w,
    )
    written object (ok created) active w = (
      created.name ∷ active,
      report P K U normal binding_configured (configured_format sc)
          (full_name sc created.namespace created.name []) binding_status (binding_kind sc) w,
    )

    write : Object → List String → World P K U → List String × World P K U
    unfolding create_or_update written
    write object active w =
        let (result, server) = create_or_update object w.server in
        written object result active (record w { server = server })

    -- What the loop does with the answer of the grouper.
    with_members : Binding → Reply P U → List String → World P K U → List String × World P K U
    unfolding bound_name object_for report write
    with_members binding (err e) active w =
        if is_not_found P e
        then (
          active,
          report P K U warning unknown_group "group %v not found" (text binding.group ∷ [])
              config_status (config_kind sc) w,
        )
        else if is_unknown_memberships P e
        then (
          bound_name config binding ∷ active,
          report P K U warning binding_error "group %v lookup failed: %v"
              (text binding.group ∷ error e ∷ []) config_status (config_kind sc) w,
        )
        else (active, w)
    with_members binding (ok []) active w = (
      active,
      report P K U warning binding_warning (no_members_format sc)
          (full_name sc config.metadata.namespace config.metadata.name (text binding.group ∷ []))
          config_status (config_kind sc) w,
    )
    with_members binding (ok (s ∷ members)) active w =
        if contains active (bound_name config binding)
        then (
          active,
          report P K U warning binding_duplicated "duplicate binding %v ignored"
              (text (bound_name config binding) ∷ []) binding_status (binding_kind sc) w,
        )
        else write (object_for config binding (s ∷ members)) active w

    module _ (gm : Grouper P U) where
      -- The body of the loop.
      unfoldable pub bind_one : Binding → List String → World P K U → List String × World P K U
      unfolding kind_is_valid with_members
      bind_one binding active w =
          if kind_is_valid sc binding.role_ref.kind
          then (let (reply, upstream) = gm binding.group w.upstream in
              with_members binding reply active (record w { upstream = upstream }))
          else (
            active,
            report P K U warning binding_error (invalid_kind_format sc)
                (text binding.role_ref.kind ∷ text binding.group ∷ []) config_status
                (config_kind sc) w,
          )

      -- The loop: it returns the names that are active.
      unfoldable pub bind_all : List Binding → List String → World P K U → List String × World P K U
      unfolding bind_one
      bind_all [] active w = (active, w)
      bind_all (binding ∷ bindings) active w =
          let (active', w') = bind_one binding active w in bind_all bindings active' w'
