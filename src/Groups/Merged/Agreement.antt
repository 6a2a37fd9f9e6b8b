-- ===== src/Groups/Merged/Agreement.antt =====
-- Two maps of groups can be merged as sources, or one into the other: what both ways have in common.
use mathlib.Core.List.{append-nil}
use rbacsync.Prelude.{String, string_eq, ◌≡◌, ◌≢◌, ◌∙◌, ap, some, List, [], ◌∷◌, ◌++◌, arith}
use rbacsync.Prelude.Dict.{lookup, UniqueKeys}
use rbacsync.Errors.{ErrorPackage, IsLawful, ok, err_not_found, text}
use rbacsync.Errors.Kinds.{wrapf_kind, is_not_found-sentinel}
use rbacsync.Api.{Subject}
use rbacsync.Groups.Subjects.{MapOrder, IsOrder, normalize}
use rbacsync.Groups.Subjects.Order.{DistinctNames}
use rbacsync.Groups.Subjects.Laws.{normalize_stable}
use rbacsync.Groups.GroupMap.{GroupMap, subjects_of, members, merge_into, deep_copy}
use rbacsync.Groups.GroupMap.Laws.{lookup-merge_into, lookup-deep_copy}
use rbacsync.Groups.Merged.{merge, merged_members}
use rbacsync.Groups.Merged.Laws.{replies, judge, answer-ok, merged_members_lem}

subjects_of-some :
    (gm : GroupMap) (group : String) {l : List Subject}
    → lookup group gm ≡ some l
    → subjects_of gm group ≡ l
unfolding subjects_of
subjects_of-some gm group h = ground arith

module _ (P : ErrorPackage) (L : IsLawful P) (U : Type 0) (a b : GroupMap) (group : String)
    (u : U) where
  judge-maps :
      judge P U (replies P U (members P U a ∷ members P U b ∷ []) group u)
      ≡ ok (subjects_of a group ++ subjects_of b group)
  unfolding judge replies members subjects_of
  judge-maps = ground (
    arith,
    wrapf_kind P L (P.sentinel err_not_found) "subjects in group %v" (text group ∷ []),
    is_not_found-sentinel P L,
    append-nil (subjects_of a group),
    append-nil (subjects_of b group),
  )

  module _ (o p q : MapOrder) (O : IsOrder o) (R : IsOrder p) (Q : IsOrder q) where
    -- Take a group that the second map has, whose subjects in both maps bear different names, and
    -- there is one at least. Then Merge answers with the very list that DeepCopy and MergeInto put
    -- into the map, whatever the orders in which Go walks through the maps.
    pub merge_into-eq-merge :
        {bs : List Subject}
        → UniqueKeys a
        → UniqueKeys b
        → lookup group b ≡ some bs
        → DistinctNames (subjects_of a group ++ bs)
        → subjects_of a group ++ bs ≢ []
        → (l : List Subject) × (lookup group (merge_into p (deep_copy q a) b) ≡ some l)
          × ((merged_members P U o (merge P U (members P U a ∷ members P U b ∷ [])) group u).0
              ≡ ok l)
    unfolding subjects_of
    merge_into-eq-merge {bs} ua ub here d ne = (
      normalize p (subjects_of a group ++ bs),
      ground (
        arith,
        lookup-merge_into p R group (deep_copy q a) b ub,
        lookup-deep_copy q Q group a ua,
      ),
      merged_members_lem P U o (members P U a ∷ members P U b ∷ []) group u
          ∙ rw (judge-maps, subjects_of-some b group here)
              (answer-ok P U o group (subjects_of a group ++ bs) ne)
          ∙ ap ok (normalize_stable o p O R _ _ (λ t. (λ m. m, λ m. m)) d),
    )
