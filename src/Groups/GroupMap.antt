-- ===== src/Groups/GroupMap.antt =====
-- pkg/groups/groupmap.go. A function that changes its receiver returns the new map.
pub mod Laws
use rbacsync.Prelude.{String, string_eq, Option, none, some, List, [], ◌∷◌, ◌++◌}
use rbacsync.Prelude.Dict.{Dict, lookup, insert}
use rbacsync.Api.{Subject}
use rbacsync.Errors.{ErrorPackage, Result, ok, err, err_not_found, text}
use rbacsync.Groups.{Grouper, Reply}
use rbacsync.Groups.Subjects.{MapOrder, normalize}

abbrev pub GroupMap : Type 0
GroupMap = Dict String (List Subject)

-- `gm[group]`, nil for a key that is not there
unfoldable pub subjects_of : GroupMap → String → List Subject
subjects_of gm group = elim (lookup group gm) [ none ↦ [] | some subjects ↦ subjects ]

module _ (P : ErrorPackage) (U : Type 0) where
  found : String → Option (List Subject) → Reply P U
  found group none =
      err (P.wrapf (P.sentinel err_not_found) "subjects in group %v" (text group ∷ []))
  found group (some subjects) = ok subjects

  -- GroupMap.Members
  unfoldable pub members : GroupMap → Grouper P U
  unfolding found
  members gm group u = (found group (lookup group gm), u)

-- The loop of DeepCopy: a copied slice has the same elements.
copy_loop : GroupMap → GroupMap → GroupMap
copy_loop [] n = n
copy_loop ((group, subjects) ∷ gm) n = copy_loop gm (insert group subjects n)

module _ (o : MapOrder) where
  -- The loop of NewGroupMap over the entries of `m`.
  new_loop : GroupMap → GroupMap → GroupMap
  new_loop [] gm = gm
  new_loop ((group, subjects) ∷ m) gm = new_loop m (insert group (normalize o subjects) gm)

  -- NewGroupMap
  unfoldable pub new_group_map : GroupMap → GroupMap
  unfolding new_loop
  new_group_map m = new_loop (o.entries m) []

  -- The loop of MergeInto over the entries of `other`.
  merge_loop : GroupMap → GroupMap → GroupMap
  unfolding subjects_of
  merge_loop [] gm = gm
  merge_loop ((group, subjects) ∷ other) gm =
      merge_loop other (insert group (normalize o (subjects_of gm group ++ subjects)) gm)

  -- GroupMap.MergeInto
  unfoldable pub merge_into : GroupMap → GroupMap → GroupMap
  unfolding merge_loop
  merge_into gm other = merge_loop (o.entries other) gm

  -- GroupMap.DeepCopy
  unfoldable pub deep_copy : GroupMap → GroupMap
  unfolding copy_loop
  deep_copy gm = copy_loop (o.entries gm) []
