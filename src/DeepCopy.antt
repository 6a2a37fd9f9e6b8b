-- ===== src/DeepCopy.antt =====
-- pkg/apis/rbacsync/v1alpha/zz_generated.deepcopy.go over a heap of arrays: the structs as they lie
-- in memory, where a slice points at its array. A `nil` receiver is `none`. The functions for
-- RBACSyncConfig and ClusterRBACSyncConfig are the same code, and so are those for their lists.
pub mod Views
pub mod Slices
pub mod Memberships
pub mod Configs
pub mod Objects
use rbacsync.Prelude.{
  ℕ, suc, String, nat_eq, ◌==◌, Bool, Option, none, some, List, [], ◌∷◌, ◌++◌, if◌then◌else◌,
}
use rbacsync.Api.{Subject, Binding}

-- A slice is nil, which `make` never returns, or all of an array.
pub data Slice : Type 0 where
  nil : Slice
  at : ℕ → Slice

-- Membership, Spec and Status with their slices.
pub record MembershipCell : Type 0 where
  pub group : String
  pub subjects : Slice

pub record SpecCell : Type 0 where
  pub bindings : Slice
  pub memberships : Slice

pub record StatusCell : Type 0 where

-- The structs of k8s.io that a config embeds. Their own DeepCopyInto is documented to copy.
pub record Embedded : Type 1 where
  pub TypeMeta : Type 0
  pub ObjectMeta : Type 0
  pub ListMeta : Type 0
  pub copy_object_meta : ObjectMeta → ObjectMeta
  pub copy_list_meta : ListMeta → ListMeta

module _ (E : Embedded) where
  -- RBACSyncConfig and ClusterRBACSyncConfig
  pub record ConfigCell : Type 0 where
    pub type_meta : E.TypeMeta
    pub object_meta : E.ObjectMeta
    pub spec : SpecCell
    pub status : StatusCell

  -- RBACSyncConfigList and ClusterRBACSyncConfigList
  pub record ConfigListCell : Type 0 where
    pub type_meta : E.TypeMeta
    pub list_meta : E.ListMeta
    pub items : Slice

  -- The arrays by their addresses; those from `next` on are free.
  pub record Heap : Type 0 where
    pub next : ℕ
    pub subjects : ℕ → List Subject
    pub bindings : ℕ → List Binding
    pub memberships : ℕ → List MembershipCell
    pub configs : ℕ → List ConfigCell

  abbrev put : {A : Type 0} → (ℕ → A) → ℕ → A → ℕ → A
  put f p a q = if q == p then a else f q

  -- `make` and `copy` for the two types of elements that have no slices.
  copy_subjects : Slice → Heap → Slice × Heap
  copy_subjects nil h = (nil, h)
  copy_subjects (at p) h =
      (at h.next, record h { next = suc h.next; subjects = put h.subjects h.next (h.subjects p) })

  pub copy_bindings : Slice → Heap → Slice × Heap
  copy_bindings nil h = (nil, h)
  copy_bindings (at p) h =
      (at h.next, record h { next = suc h.next; bindings = put h.bindings h.next (h.bindings p) })

  -- The loop `for i := range *in { (*in)[i].DeepCopyInto(&(*out)[i]) }`: the elements of the new
  -- array in their order.
  unfoldable pub copy_each : {A : Type 0} → (A → Heap → A × Heap) → List A → Heap → List A × Heap
  copy_each f [] h = ([], h)
  copy_each f (a ∷ rest) h =
      let (b, h') = f a h in let (bs, h'') = copy_each f rest h' in (b ∷ bs, h'')

  -- Binding.DeepCopyInto
  unfoldable pub binding_deep_copy_into : Binding → Binding
  binding_deep_copy_into b = record { group = b.group; role_ref = b.role_ref }

  -- Status.DeepCopyInto
  unfoldable pub status_deep_copy_into : StatusCell → StatusCell
  status_deep_copy_into s = s

  -- Membership.DeepCopyInto
  unfoldable pub membership_deep_copy_into : MembershipCell → Heap → MembershipCell × Heap
  unfolding copy_subjects
  membership_deep_copy_into m h =
      let (subjects, h') = copy_subjects m.subjects h in
      (record { group = m.group; subjects = subjects }, h')

  -- The second part of Spec.DeepCopyInto: the new array is made before the loop fills it.
  pub copy_memberships : Slice → Heap → Slice × Heap
  unfolding copy_each membership_deep_copy_into
  copy_memberships nil h = (nil, h)
  copy_memberships (at p) h =
      let (copies, h') =
        copy_each membership_deep_copy_into (h.memberships p) (record h { next = suc h.next }) in
      (at h.next, record h' { memberships = put h'.memberships h.next copies })

  -- Spec.DeepCopyInto
  unfoldable pub spec_deep_copy_into : SpecCell → Heap → SpecCell × Heap
  unfolding copy_bindings copy_memberships
  spec_deep_copy_into s h =
      let (bindings, h') = copy_bindings s.bindings h in
      let (memberships, h'') = copy_memberships s.memberships h' in
      (record { bindings = bindings; memberships = memberships }, h'')

  -- RBACSyncConfig.DeepCopyInto
  unfoldable pub config_deep_copy_into : ConfigCell → Heap → ConfigCell × Heap
  unfolding spec_deep_copy_into status_deep_copy_into
  config_deep_copy_into c h =
      let (spec, h') = spec_deep_copy_into c.spec h in
      (
        record {
          type_meta = c.type_meta;
          object_meta = E.copy_object_meta c.object_meta;
          spec = spec;
          status = status_deep_copy_into c.status;
        },
        h',
      )

  pub copy_configs : Slice → Heap → Slice × Heap
  unfolding copy_each config_deep_copy_into
  copy_configs nil h = (nil, h)
  copy_configs (at p) h =
      let (copies, h') =
        copy_each config_deep_copy_into (h.configs p) (record h { next = suc h.next }) in
      (at h.next, record h' { configs = put h'.configs h.next copies })

  -- RBACSyncConfigList.DeepCopyInto
  unfoldable pub config_list_deep_copy_into : ConfigListCell → Heap → ConfigListCell × Heap
  unfolding copy_configs
  config_list_deep_copy_into l h =
      let (items, h') = copy_configs l.items h in
      (
        record { type_meta = l.type_meta; list_meta = E.copy_list_meta l.list_meta; items = items },
        h',
      )

  -- ClusterRBACSyncConfig.DeepCopyInto and ClusterRBACSyncConfigList.DeepCopyInto, the same code
  -- over their own types
  unfoldable pub cluster_config_deep_copy_into : ConfigCell → Heap → ConfigCell × Heap
  unfolding config_deep_copy_into
  cluster_config_deep_copy_into = config_deep_copy_into

  unfoldable pub cluster_config_list_deep_copy_into : ConfigListCell → Heap → ConfigListCell × Heap
  unfolding config_list_deep_copy_into
  cluster_config_list_deep_copy_into = config_list_deep_copy_into

  -- What each DeepCopy does with its DeepCopyInto, and each DeepCopyObject with its DeepCopy.
  unfoldable pub deep_copy :
      {A : Type 0} → (A → Heap → A × Heap) → Option A → Heap → Option A × Heap
  deep_copy into none h = (none, h)
  deep_copy into (some a) h = let (out, h') = into a h in (some out, h')

  as_object : {A : Type 0} → Option A × Heap → Option A × Heap
  as_object (none, h) = (none, h)
  as_object (some c, h) = (some c, h)

  unfoldable pub deep_copy_object :
      {A : Type 0} → (A → Heap → A × Heap) → Option A → Heap → Option A × Heap
  unfolding deep_copy as_object
  deep_copy_object into a h = as_object (deep_copy into a h)

  -- The functions for the types.
  abbrev pub binding_deep_copy : Option Binding → Heap → Option Binding × Heap
  binding_deep_copy = deep_copy (λ b h. (binding_deep_copy_into b, h))

  abbrev pub status_deep_copy : Option StatusCell → Heap → Option StatusCell × Heap
  status_deep_copy = deep_copy (λ s h. (status_deep_copy_into s, h))

  abbrev pub membership_deep_copy : Option MembershipCell → Heap → Option MembershipCell × Heap
  membership_deep_copy = deep_copy membership_deep_copy_into

  abbrev pub spec_deep_copy : Option SpecCell → Heap → Option SpecCell × Heap
  spec_deep_copy = deep_copy spec_deep_copy_into

  abbrev pub config_deep_copy : Option ConfigCell → Heap → Option ConfigCell × Heap
  config_deep_copy = deep_copy config_deep_copy_into

  abbrev pub config_deep_copy_object : Option ConfigCell → Heap → Option ConfigCell × Heap
  config_deep_copy_object = deep_copy_object config_deep_copy_into

  abbrev pub cluster_config_deep_copy : Option ConfigCell → Heap → Option ConfigCell × Heap
  cluster_config_deep_copy = deep_copy cluster_config_deep_copy_into

  abbrev pub cluster_config_deep_copy_object : Option ConfigCell → Heap → Option ConfigCell × Heap
  cluster_config_deep_copy_object = deep_copy_object cluster_config_deep_copy_into

  abbrev pub config_list_deep_copy : Option ConfigListCell → Heap → Option ConfigListCell × Heap
  config_list_deep_copy = deep_copy config_list_deep_copy_into

  abbrev pub config_list_deep_copy_object :
      Option ConfigListCell → Heap → Option ConfigListCell × Heap
  config_list_deep_copy_object = deep_copy_object config_list_deep_copy_into

  abbrev pub cluster_config_list_deep_copy :
      Option ConfigListCell → Heap → Option ConfigListCell × Heap
  cluster_config_list_deep_copy = deep_copy cluster_config_list_deep_copy_into

  abbrev pub cluster_config_list_deep_copy_object :
      Option ConfigListCell → Heap → Option ConfigListCell × Heap
  cluster_config_list_deep_copy_object = deep_copy_object cluster_config_list_deep_copy_into
