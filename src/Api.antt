-- ===== src/Api.antt =====
-- The API types of pkg/apis/rbacsync/v1alpha/types.go, with the structs of the Kubernetes API that
-- they embed: of those the fields that this program reads or writes.
use rbacsync.Prelude.{String, List, Eq, string_eq}

-- rbacv1.Subject: four strings, so that Go compares it by `==` and takes it as the key of a map.
pub record Subject : Type 0 where
  pub kind : String
  pub api_group : String
  pub name : String
  pub namespace : String

Subject-discrete : Discrete Subject
Subject-discrete = hlevel string_eq.dec

instance unfoldable pub subject_eq : Eq Subject
unfolding Subject-discrete
subject_eq = record { dec = Subject-discrete }

-- rbacv1.RoleRef
pub record RoleRef : Type 0 where
  pub api_group : String
  pub kind : String
  pub name : String

pub record Binding : Type 0 where
  pub group : String
  pub role_ref : RoleRef

pub record Membership : Type 0 where
  pub group : String
  pub subjects : List Subject

pub record Spec : Type 0 where
  pub bindings : List Binding
  pub memberships : List Membership

-- metav1.ObjectMeta of a config
pub record ObjectMeta : Type 0 where
  pub name : String
  pub namespace : String
  pub uid : String
  pub resource_version : String

-- The two kinds of config have the same fields; the status has none yet.
pub record Config : Type 0 where
  pub metadata : ObjectMeta
  pub spec : Spec

abbrev pub RbacSyncConfig : Type 0
RbacSyncConfig = Config

abbrev pub ClusterRbacSyncConfig : Type 0
ClusterRbacSyncConfig = Config
