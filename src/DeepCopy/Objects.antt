-- ===== src/DeepCopy/Objects.antt =====
-- The deep copies of lists of configs as objects: they read like the original, and share nothing
-- with it.
use mathlib.Core.List.{map}
use mathlib.Core.Option
use rbacsync.Prelude.{nat_eq, ap, ◌≡◌, refl, sym, subst, ◌∙◌, Option, some, arith}
use rbacsync.Kube.{Scope, namespaced, cluster}
use rbacsync.DeepCopy.{
  deep_copy_object, cluster_config_list_deep_copy_into, config_list_deep_copy_object,
  cluster_config_list_deep_copy_object, Slice, nil, at, Embedded, ConfigListCell, Heap,
  config_list_deep_copy_into,
}
use rbacsync.DeepCopy.Views.{
  view_config, view_configs, view_config_list, IsConfig, HasConfigs, Agree,
}
use rbacsync.DeepCopy.Slices.{Agree-trans, each-stable}
use rbacsync.DeepCopy.Memberships.{CopiesEmbedded}
use rbacsync.DeepCopy.Configs.{IsConfig-Readable, with_items, config_list-Copied}

module _ (E : Embedded) (C : CopiesEmbedded E) where
  -- The deep copy of a list of configs of either kind, as an object.
  abbrev pub copy_object : Scope → ConfigListCell E → Heap E → Option (ConfigListCell E) × Heap E
  copy_object namespaced l = config_list_deep_copy_object E (some l)
  copy_object cluster l = cluster_config_list_deep_copy_object E (some l)

  object-into :
      (sc : Scope) (l : ConfigListCell E) (h : Heap E)
      → let (copy, after) = config_list_deep_copy_into E l h in
        copy_object sc l h ≡ (some copy, after)
  unfolding deep_copy_object cluster_config_list_deep_copy_into
  object-into namespaced l h = refl
  object-into cluster l h = refl

  -- Take a list of configs of either kind whose slices point at arrays that have been made. Its
  -- deep copy reads like the list did, nil slices as nil, in every heap that still holds the
  -- arrays which the copy made: whatever is written later to the arrays of the list, the copy does
  -- not see it.
  pub deep_copy-reads :
      (sc : Scope) (l : ConfigListCell E) (h g : Heap E)
      → HasConfigs E h l.items
      → let (copy, after) = copy_object sc l h in
        Agree E h.next after.next after g
        → Option.map (view_config_list E g) copy ≡ some (view_config_list E h l)
  deep_copy-reads sc l h g ok a =
      subst
        (λ (r : Option (ConfigListCell E) × Heap E).
          Agree E h.next r.1.next r.1 g
          → Option.map (view_config_list E g) r.0 ≡ some (view_config_list E h l))
        (sym (object-into sc l h)) (λ a'. ap some ((config_list-Copied E C l h ok).same g a')) a

  configs-stable :
      (s : Slice) (h g : Heap E)
      → HasConfigs E h s
      → Agree E 0 h.next h g
      → view_configs E g s ≡ view_configs E h s
  configs-stable nil h g ok a = refl
  configs-stable (at p) h g (made, ok) a = ap some (
      ap (map (view_config E g)) (a.configs p (omega arith) made)
      ∙ each-stable E (view_config E) (IsConfig E) (IsConfig-Readable E) (h.configs p) h g ok a)

  -- Making the deep copy changes nothing of the list, and neither does any later write to the
  -- arrays that the copy made: in every heap that still holds the arrays that were there before,
  -- as the copying left them, the list reads like it did.
  pub deep_copy-spares :
      (sc : Scope) (l : ConfigListCell E) (h g : Heap E)
      → HasConfigs E h l.items
      → Agree E 0 h.next (copy_object sc l h).1 g
      → view_config_list E g l ≡ view_config_list E h l
  unfolding with_items
  deep_copy-spares sc l h g ok a =
      let b =
        subst (λ (r : Option (ConfigListCell E) × Heap E). Agree E 0 h.next r.1 g)
          (object-into sc l h) a in
      ap (with_items E C l l.list_meta)
        (configs-stable l.items h g ok (Agree-trans E (config_list-Copied E C l h ok).frame b))
