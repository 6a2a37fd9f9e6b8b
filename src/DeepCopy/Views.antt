-- ===== src/DeepCopy/Views.antt =====
-- What the structs hold, read out of the heap: the values that a reader of the Go structs sees, with
-- nil slices told apart from empty ones.
use mathlib.Core.List.{map}
use rbacsync.Prelude.{ℕ, String, Option, none, some, List, [], ◌∷◌, ◌≡◌}
use Prim.Native.Nat.{◌≤◌, ◌<◌}
use rbacsync.Api.{Subject, Binding}
use rbacsync.DeepCopy.{
  Slice, nil, at, MembershipCell, SpecCell, Embedded, ConfigCell, ConfigListCell, Heap,
}

pub record MembershipView : Type 0 where
  pub group : String
  pub subjects : Option (List Subject)

pub record SpecView : Type 0 where
  pub bindings : Option (List Binding)
  pub memberships : Option (List MembershipView)

module _ (E : Embedded) where
  pub record ConfigView : Type 0 where
    pub type_meta : E.TypeMeta
    pub object_meta : E.ObjectMeta
    pub spec : SpecView

  pub record ConfigListView : Type 0 where
    pub type_meta : E.TypeMeta
    pub list_meta : E.ListMeta
    pub items : Option (List ConfigView)

  -- The elements of a slice.
  abbrev pub elements : {A V : Type 0} → (ℕ → List A) → (A → V) → Slice → Option (List V)
  elements arrays view nil = none
  elements arrays view (at p) = some (map view (arrays p))

  abbrev pub view_subjects : Heap E → Slice → Option (List Subject)
  view_subjects h nil = none
  view_subjects h (at p) = some (h.subjects p)

  abbrev pub view_bindings : Heap E → Slice → Option (List Binding)
  view_bindings h nil = none
  view_bindings h (at p) = some (h.bindings p)

  abbrev pub view_membership : Heap E → MembershipCell → MembershipView
  view_membership h m = record { group = m.group; subjects = view_subjects h m.subjects }

  abbrev pub view_memberships : Heap E → Slice → Option (List MembershipView)
  view_memberships h s = elements h.memberships (view_membership h) s

  abbrev pub view_spec : Heap E → SpecCell → SpecView
  view_spec h s = record {
    bindings = view_bindings h s.bindings;
    memberships = view_memberships h s.memberships;
  }

  abbrev pub view_config : Heap E → ConfigCell E → ConfigView
  view_config h c = record {
    type_meta = c.type_meta;
    object_meta = c.object_meta;
    spec = view_spec h c.spec;
  }

  abbrev pub view_configs : Heap E → Slice → Option (List ConfigView)
  view_configs h s = elements h.configs (view_config h) s

  abbrev pub view_config_list : Heap E → ConfigListCell E → ConfigListView
  view_config_list h l = record {
    type_meta = l.type_meta;
    list_meta = l.list_meta;
    items = view_configs h l.items;
  }

  abbrev pub All : {A : Type 0} → (A → Type 0) → List A → Type 0
  All P [] = Unit
  All P (a ∷ rest) = P a × All P rest

  -- The slices point at arrays that have been made.
  abbrev pub IsSlice : Heap E → Slice → Type 0
  IsSlice h nil = Unit
  IsSlice h (at p) = p < h.next

  abbrev pub IsMembership : Heap E → MembershipCell → Type 0
  IsMembership h m = IsSlice h m.subjects

  abbrev pub HasMemberships : Heap E → Slice → Type 0
  HasMemberships h nil = Unit
  HasMemberships h (at p) = (p < h.next) × All (IsMembership h) (h.memberships p)

  abbrev pub IsConfig : Heap E → ConfigCell E → Type 0
  IsConfig h c = IsSlice h c.spec.bindings × HasMemberships h c.spec.memberships

  abbrev pub HasConfigs : Heap E → Slice → Type 0
  HasConfigs h nil = Unit
  HasConfigs h (at p) = (p < h.next) × All (IsConfig h) (h.configs p)

  -- The two heaps hold the same arrays from one address up to another.
  pub record Agree (low high : ℕ) (g h : Heap E) : Type 0 where
    pub subjects : (p : ℕ) → low ≤ p → p < high → h.subjects p ≡ g.subjects p
    pub bindings : (p : ℕ) → low ≤ p → p < high → h.bindings p ≡ g.bindings p
    pub memberships : (p : ℕ) → low ≤ p → p < high → h.memberships p ≡ g.memberships p
    pub configs : (p : ℕ) → low ≤ p → p < high → h.configs p ≡ g.configs p
