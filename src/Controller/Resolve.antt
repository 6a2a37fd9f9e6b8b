-- ===== src/Controller/Resolve.antt =====
-- resolveGroups of pkg/controller/controller.go: the memberships of a config, joined with those of
-- the controller's grouper.
pub mod Laws
pub mod Merging
pub mod Entitled
use rbacsync.Prelude.{String, string_eq, Option, none, some, List, [], ◌∷◌, ◌++◌}
use rbacsync.Prelude.Dict.{insert}
use rbacsync.Api.{Subject, Membership}
use rbacsync.Errors.{ErrorPackage}
use rbacsync.Groups.{Grouper}
use rbacsync.Groups.Subjects.{MapOrder, normalize}
use rbacsync.Groups.GroupMap.{GroupMap, subjects_of, members}
use rbacsync.Groups.Merged.{merge, merged_members}

-- The two loops that append each subject to the entry of its group.
add_subjects : String → List Subject → GroupMap → GroupMap
unfolding subjects_of
add_subjects group [] gm = gm
add_subjects group (subject ∷ subjects) gm =
    add_subjects group subjects (insert group (subjects_of gm group ++ subject ∷ []) gm)

unfoldable pub add_memberships : List Membership → GroupMap → GroupMap
unfolding add_subjects
add_memberships [] gm = gm
add_memberships (m ∷ memberships) gm =
    add_memberships memberships (add_subjects m.group m.subjects gm)

module _ (o : MapOrder) where
  -- The loop that normalizes each entry in place, over the entries that `range` yields.
  normalize_loop : GroupMap → GroupMap → GroupMap
  normalize_loop [] gm = gm
  normalize_loop ((group, subjects) ∷ entries) gm =
      normalize_loop entries (insert group (normalize o subjects) gm)

  unfoldable pub static_groups : List Membership → GroupMap
  unfolding normalize_loop add_memberships
  static_groups memberships =
      let gm = add_memberships memberships [] in normalize_loop (o.entries gm) gm

  module _ (P : ErrorPackage) (U : Type 0) where
    -- resolveGroups: `none` is a nil grouper
    unfoldable pub resolve_groups : Option (Grouper P U) → List Membership → Grouper P U
    unfolding static_groups merge merged_members members
    resolve_groups none memberships = members P U (static_groups memberships)
    resolve_groups (some grouper) memberships =
        merged_members P U o (merge P U (members P U (static_groups memberships) ∷ grouper ∷ []))
