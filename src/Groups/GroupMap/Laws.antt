-- ===== src/Groups/GroupMap/Laws.antt =====
-- What a look-up finds after the operations of pkg/groups/groupmap.go.
use mathlib.Core.HLevel.{hedberg}
use mathlib.Core.List.{List-discrete}
use mathlib.Core.Option
use rbacsync.Prelude.{String, string_eq, ◌≡◌, refl, Option, none, some, List, [], ◌∷◌, ◌++◌, arith}
use rbacsync.Prelude.Dict.{lookup, insert, lookup-insert, UniqueKeys}
use rbacsync.Prelude.Dict.Order.{Perm-Agree, Agree}
use rbacsync.Api.{Subject, subject_eq}
use rbacsync.Groups.Subjects.{MapOrder, IsOrder, normalize}
use rbacsync.Groups.GroupMap.{
  GroupMap, subjects_of, new_loop, new_group_map, merge_loop, merge_into, copy_loop, deep_copy,
}

pub subjects_set : IsSet (List Subject)
subjects_set = hedberg (List-discrete subject_eq.dec)

pub entries-Agree :
    (o : MapOrder) → IsOrder o → (gm : GroupMap) → UniqueKeys gm → Agree (o.entries gm) gm
entries-Agree o O gm u = Perm-Agree subjects_set (O.entries-perm gm) u

-- The entry of a key after a loop over a map: the value made of its entry there, or the old one.
abbrev pub written :
    (List Subject → List Subject)
    → Option (List Subject)
    → Option (List Subject)
    → Option (List Subject)
written f none old = old
written f (some subjects) old = some (f subjects)

lookup-copy_loop :
    (m gm : GroupMap) (g : String)
    → UniqueKeys m
    → lookup g (copy_loop m gm) ≡ written (λ l. l) (lookup g m) (lookup g gm)
unfolding copy_loop lookup
lookup-copy_loop [] gm g u = refl
lookup-copy_loop ((j, ss) ∷ m) gm g (fresh, u) =
    ground (arith, lookup-copy_loop m (insert j ss gm) g u, lookup-insert g j ss gm)

module _ (o : MapOrder) where
  lookup-new_loop :
      (m gm : GroupMap) (g : String)
      → UniqueKeys m
      → lookup g (new_loop o m gm) ≡ written (normalize o) (lookup g m) (lookup g gm)
  unfolding new_loop lookup
  lookup-new_loop [] gm g u = refl
  lookup-new_loop ((j, ss) ∷ m) gm g (fresh, u) = ground (
    arith,
    lookup-new_loop m (insert j (normalize o ss) gm) g u,
    lookup-insert g j (normalize o ss) gm,
  )

  lookup-merge_loop :
      (m gm : GroupMap) (g : String)
      → UniqueKeys m
      → lookup g (merge_loop o m gm)
        ≡ written (λ l. normalize o (subjects_of gm g ++ l)) (lookup g m) (lookup g gm)
  unfolding merge_loop lookup subjects_of
  lookup-merge_loop [] gm g u = refl
  lookup-merge_loop ((j, ss) ∷ m) gm g (fresh, u) = ground (
    arith,
    lookup-merge_loop m (insert j (normalize o (subjects_of gm j ++ ss)) gm) g u,
    lookup-insert g j (normalize o (subjects_of gm j ++ ss)) gm,
  )

  module _ (O : IsOrder o) (g : String) where
    -- NewGroupMap keeps the groups of its argument and normalizes each.
    pub lookup-new_group_map :
        (m : GroupMap)
        → UniqueKeys m
        → lookup g (new_group_map o m) ≡ Option.map (normalize o) (lookup g m)
    unfolding new_group_map lookup
    lookup-new_group_map m u =
        let (ue, same) = entries-Agree o O m u in
        ground (arith, lookup-new_loop (o.entries m) [] g ue, same g)

    -- DeepCopy has the entries of its receiver.
    pub lookup-deep_copy : (gm : GroupMap) → UniqueKeys gm → lookup g (deep_copy o gm) ≡ lookup g gm
    unfolding deep_copy lookup
    lookup-deep_copy gm u =
        let (ue, same) = entries-Agree o O gm u in
        ground (arith, lookup-copy_loop (o.entries gm) [] g ue, same g)

    -- MergeInto joins and normalizes the groups of `other`, and leaves the rest alone.
    pub lookup-merge_into :
        (gm other : GroupMap)
        → UniqueKeys other
        → lookup g (merge_into o gm other)
          ≡ written (λ l. normalize o (subjects_of gm g ++ l)) (lookup g other) (lookup g gm)
    unfolding merge_into
    lookup-merge_into gm other u =
        let (ue, same) = entries-Agree o O other u in
        ground (arith, lookup-merge_loop (o.entries other) gm g ue, same g)
