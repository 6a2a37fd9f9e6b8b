-- ===== src/DeepCopy/Configs.antt =====
-- The deep copies of specs, configs and lists of configs.
use Prim.Native.Nat.{◌≤◌}
use mathlib.Core.List.{map}
use rbacsync.Prelude.{nat_eq, ap, ap₂, ◌≡◌, refl, ◌∙◌, List, Option, some, arith}
use rbacsync.Api.{Binding}
use rbacsync.DeepCopy.{
  Slice, nil, at, SpecCell, Embedded, ConfigCell, ConfigListCell, Heap, copy_bindings, copy_each,
  spec_deep_copy_into, config_deep_copy_into, copy_configs, config_list_deep_copy_into,
}
use rbacsync.DeepCopy.Views.{
  MembershipView, SpecView, ConfigView, ConfigListView, view_membership, view_memberships,
  view_spec, view_config, view_configs, view_config_list, IsSlice, IsMembership, HasMemberships,
  IsConfig, HasConfigs, Agree,
}
use rbacsync.DeepCopy.Slices.{
  Agree-refl, Agree-narrow, Agree-trans, Copied, Readable, each-stable, each-keeps,
  copy_each-Copied,
}
use rbacsync.DeepCopy.Memberships.{
  CopiesEmbedded, bindings-stable, IsSlice-keeps, copy_bindings-Copied, IsMembership-Readable,
  copy_memberships-Copied, reserved, reserved-Agree,
}

module _ (E : Embedded) where
  memberships-stable :
      (s : Slice) (h g : Heap E)
      → HasMemberships E h s
      → Agree E 0 h.next h g
      → view_memberships E g s ≡ view_memberships E h s
  memberships-stable nil h g ok a = refl
  memberships-stable (at p) h g (made, ok) a = ap some (
      ap (map (view_membership E g)) (a.memberships p (omega arith) made)
      ∙ each-stable E (view_membership E) (IsMembership E) (IsMembership-Readable E)
          (h.memberships p) h g ok a)

  HasMemberships-keeps :
      (s : Slice) (h g : Heap E)
      → HasMemberships E h s
      → h.next ≤ g.next
      → Agree E 0 h.next h g
      → HasMemberships E g s
  HasMemberships-keeps nil h g ok n a = tt
  HasMemberships-keeps (at p) h g (made, ok) n a = (
    omega arith,
    rw (a.memberships p (omega arith) made) (
        each-keeps E (view_membership E) (IsMembership E) (IsMembership-Readable E)
          (h.memberships p) h g ok n a),
  )

  config_view : ConfigCell E → Option (List Binding) → Option (List MembershipView) → ConfigView E
  config_view c bindings memberships = record {
    type_meta = c.type_meta;
    object_meta = c.object_meta;
    spec = record { bindings = bindings; memberships = memberships };
  }

  pub IsConfig-Readable : Readable E (view_config E) (IsConfig E)
  unfolding config_view
  IsConfig-Readable = record {
    stable = λ c h g (b, m) a.
        ap₂ (config_view c) (bindings-stable E c.spec.bindings h g b a)
          (memberships-stable c.spec.memberships h g m a);
    keeps = λ c h g (b, m) n a. (
      IsSlice-keeps E c.spec.bindings h g b n,
      HasMemberships-keeps c.spec.memberships h g m n a,
    );
  }

  spec_view : Option (List Binding) → Option (List MembershipView) → SpecView
  spec_view bindings memberships = record { bindings = bindings; memberships = memberships }

  spec-Copied :
      (s : SpecCell) (h : Heap E)
      → IsSlice E h s.bindings
      → HasMemberships E h s.memberships
      → Copied E (view_spec E) (view_spec E h s) h (spec_deep_copy_into E s h)
  unfolding spec_deep_copy_into spec_view
  spec-Copied s h b m =
      let (bindings, h') = copy_bindings E s.bindings h in
      let first = copy_bindings-Copied E s.bindings h b in
      let rest =
        copy_memberships-Copied E s.memberships h'
          (HasMemberships-keeps s.memberships h h' m first.grows first.frame) in
      let low = first.grows in
      let high = rest.grows in
      record {
        grows = omega arith;
        frame = Agree-trans E first.frame (Agree-narrow E (omega arith) low rest.frame);
        same = λ g a.
            ap₂ spec_view
              (first.same g (
                Agree-trans E (Agree-narrow E (omega arith) (omega arith) rest.frame)
                  (Agree-narrow E (omega arith) high a)))
              (rest.same g (Agree-narrow E low (omega arith) a)
                ∙ memberships-stable s.memberships h h' m first.frame);
      }

  module _ (C : CopiesEmbedded E) where
    with_spec : ConfigCell E → E.ObjectMeta → SpecView → ConfigView E
    with_spec c m spec = record { type_meta = c.type_meta; object_meta = m; spec = spec }

    config-Copied :
        (c : ConfigCell E) (h : Heap E)
        → IsConfig E h c
        → Copied E (view_config E) (view_config E h c) h (config_deep_copy_into E c h)
    unfolding config_deep_copy_into with_spec
    config-Copied c h (b, m) =
        let s = spec-Copied c.spec h b m in
        record {
          grows = s.grows;
          frame = s.frame;
          same = λ g a. ap₂ (with_spec c) (C.object_meta c.object_meta) (s.same g a);
        }

    copy_configs-Copied :
        (s : Slice) (h : Heap E)
        → HasConfigs E h s
        → Copied E (view_configs E) (view_configs E h s) h (copy_configs E s h)
    unfolding copy_configs
    copy_configs-Copied nil h ok = record {
      grows = omega arith;
      frame = Agree-refl E h;
      same = λ g s. refl;
    }
    copy_configs-Copied (at p) h (made, ok) =
        let old = h.configs p in
        let (copies, h') = copy_each E (config_deep_copy_into E) old (reserved E h) in
        let loop =
          copy_each-Copied E (view_config E) (IsConfig E) IsConfig-Readable
            (config_deep_copy_into E) config-Copied old (reserved E h)
            (each-keeps E (view_config E) (IsConfig E) IsConfig-Readable old h (reserved E h) ok
              (omega arith) (reserved-Agree E h)) in
        let more = loop.grows in
        let kept = loop.frame in
        record {
          grows = omega arith;
          frame = record {
            subjects = λ q l u. kept.subjects q l (omega arith);
            bindings = λ q l u. kept.bindings q l (omega arith);
            memberships = λ q l u. kept.memberships q l (omega arith);
            configs = λ q l u. ground (arith, kept.configs q l (omega arith));
          };
          same = λ g s. ap some (
              ap (map (view_config E g))
                (ground (arith, s.configs h.next (omega arith) (omega arith)))
              ∙ loop.same g (record {
                subjects = λ q l u. s.subjects q (omega arith) u;
                bindings = λ q l u. s.bindings q (omega arith) u;
                memberships = λ q l u. s.memberships q (omega arith) u;
                configs = λ q l u. ground (arith, s.configs q (omega arith) u);
              }));
        }

    unfoldable pub with_items :
        ConfigListCell E → E.ListMeta → Option (List (ConfigView E)) → ConfigListView E
    with_items l m items = record { type_meta = l.type_meta; list_meta = m; items = items }

    pub config_list-Copied :
        (l : ConfigListCell E) (h : Heap E)
        → HasConfigs E h l.items
        → Copied E
            (view_config_list E)
            (view_config_list E h l)
            h
            (config_list_deep_copy_into E l h)
    unfolding config_list_deep_copy_into with_items
    config_list-Copied l h ok =
        let s = copy_configs-Copied l.items h ok in
        record {
          grows = s.grows;
          frame = s.frame;
          same = λ g a. ap₂ (with_items l) (C.list_meta l.list_meta) (s.same g a);
        }
