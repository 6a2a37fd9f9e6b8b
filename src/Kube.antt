-- ===== src/Kube.antt =====
-- The Kubernetes API as pkg/controller/controller.go uses it: the objects that it writes, and the
-- clients, listers and helpers of k8s.io as the parameter `Kube`.
pub mod Server
use rbacsync.Prelude.{String, Eq, Bool, Option, List}
use rbacsync.Api.{Subject, RoleRef, ObjectMeta}
use rbacsync.Errors.{ErrorPackage, Result}

-- Which of the two handlers runs: handleConfig works on the RoleBindings of a namespace, and
-- handleClusterConfig on ClusterRoleBindings.
pub data Scope : Type 0 where
  namespaced cluster : Scope

Scope-discrete : Discrete Scope
Scope-discrete = hlevel

instance unfoldable pub scope_eq : Eq Scope
unfolding Scope-discrete
scope_eq = record { dec = Scope-discrete }

-- rbacv1.RoleBinding and rbacv1.ClusterRoleBinding, the latter with no namespace.
pub record BoundRole (Owner : Type 0) : Type 0 where
  pub name : String
  pub namespace : String
  pub owner_references : List Owner
  pub labels : List (String × String)
  pub annotations : List (String × String)
  pub subjects : List Subject
  pub role_ref : RoleRef

pub record Kube (P : ErrorPackage) : Type 1 where
  -- The objects on the API server, with the caches of the listers.
  pub State : Type 0
  pub OwnerReference : Type 0
  pub Requirement : Type 0
  pub Selector : Type 0
  -- metav1.NewControllerRef for a group, a version and a kind; metav1.IsControlledBy
  pub new_controller_ref : ObjectMeta → (group version kind : String) → OwnerReference
  pub is_controlled_by : BoundRole OwnerReference → ObjectMeta → Bool
  -- labels.NewSelector, labels.NewRequirement with selection.Equals, Selector.Add
  pub new_selector : Selector
  pub new_requirement : String → List String → Result P.Error Requirement
  pub add : Selector → Requirement → Selector
  -- The typed clients and the listers of the two kinds of object. A name is looked for in a
  -- namespace, which is "" for cluster scoped objects.
  pub update :
      Scope → BoundRole OwnerReference → State → Result P.Error (BoundRole OwnerReference) × State
  pub create :
      Scope → BoundRole OwnerReference → State → Result P.Error (BoundRole OwnerReference) × State
  pub delete : Scope → String → String → State → Option P.Error × State
  pub list : Scope → String → Selector → State → Result P.Error (List (BoundRole OwnerReference))
  -- kubeerrors.IsNotFound
  pub is_not_found : P.Error → Bool
