-- ===== src/Controller/Util.antt =====
-- pkg/controller/util.go: constructors of configs and of what they hold. A TypeMeta holds the kind
-- that the type has anyway, and is left out.
use rbacsync.Prelude.{String, List}
use rbacsync.Api.{Subject, Binding, Membership, RbacSyncConfig, ClusterRbacSyncConfig}

abbrev pub new_binding : (group role kind : String) → Binding
new_binding group role kind = record {
  group = group;
  role_ref = record { api_group = "rbac.authorization.k8s.io"; kind = kind; name = role };
}

abbrev pub new_user_subject : String → Subject
new_user_subject name = record {
  kind = "User";
  api_group = "rbac.authorization.k8s.io";
  name = name;
  namespace = "";
}

abbrev pub new_membership : String → List Subject → Membership
new_membership group subjects = record { group = group; subjects = subjects }

abbrev pub new_rbac_sync_config :
    (namespace name : String) → List Membership → List Binding → RbacSyncConfig
new_rbac_sync_config namespace name memberships bindings = record {
  metadata = record { name = name; namespace = namespace; uid = ""; resource_version = "" };
  spec = record { bindings = bindings; memberships = memberships };
}

abbrev pub new_cluster_rbac_sync_config :
    String → List Membership → List Binding → ClusterRbacSyncConfig
new_cluster_rbac_sync_config name memberships bindings =
    new_rbac_sync_config "" name memberships bindings
