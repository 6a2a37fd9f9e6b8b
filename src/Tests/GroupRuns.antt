-- ===== src/Tests/GroupRuns.antt =====
-- The theorems on the groups, applied to small lists and maps.
use mathlib.Core.List.{Mem, Nodup}
use rbacsync.Prelude.{
  string_eq, arith, ◌≡◌, ◌≢◌, ◌↔◌, ◌⊎◌, refl, ◌∙◌, true, false, none, some, List, [], ◌∷◌, ◌++◌,
  contains-iff_mem,
}
use rbacsync.Prelude.Dict.{lookup, UniqueKeys}
use rbacsync.Api.{Subject, subject_eq, Membership}
use rbacsync.Errors.{ok, err, err_unknown, is_not_found, is_unknown_memberships}
use rbacsync.Errors.Kinds.{is_not_found-other}
use rbacsync.Groups.Subjects.{normalize}
use rbacsync.Groups.Subjects.Order.{IsSorted, DistinctNames}
use rbacsync.Groups.Subjects.Laws.{
  forward, backward, forward-IsOrder, backward-IsOrder, normalize_lem, normalize_stable,
  normalize_unstable,
}
use rbacsync.Groups.GroupMap.{GroupMap, subjects_of, members, merge_into, deep_copy}
use rbacsync.Groups.Merged.{merge, merged_members}
use rbacsync.Groups.Merged.Laws.{replies, judge, prefix, answer, merged_members_lem}
use rbacsync.Groups.Merged.Errors.{ErrorsClassified, merged_members-err}
use rbacsync.Groups.Merged.Agreement.{merge_into-eq-merge}
use rbacsync.Controller.Resolve.{static_groups, resolve_groups}
use rbacsync.Controller.Resolve.Laws.{subjects_in, lookup-static_groups}
use rbacsync.Controller.Resolve.Merging.{resolve_groups-ok, resolve_groups-ErrorsClassified}
use rbacsync.Tests.Samples.{
  Failure, failures, failures-IsLawful, known, wrapped, user, one_user, clueless,
}

abbrev people : List Subject
people = user "bob" ∷ user "ann" ∷ user "bob" ∷ []

normalize_lem_example :
    ((t : Subject) → Mem t (normalize backward people) ↔ Mem t people)
    × Nodup (normalize backward people)
    × IsSorted (normalize backward people)
normalize_lem_example = normalize_lem backward backward-IsOrder people

-- Users are told apart by their names.
users-DistinctNames : DistinctNames (user "bob" ∷ user "ann" ∷ [])
users-DistinctNames s t m n same = ground (
  arith,
  (contains-iff_mem (user "bob" ∷ user "ann" ∷ []) s).1 m,
  (contains-iff_mem (user "bob" ∷ user "ann" ∷ []) t).1 n,
)

normalize_stable_example :
    normalize forward (user "bob" ∷ user "ann" ∷ [])
    ≡ normalize backward (user "bob" ∷ user "ann" ∷ [])
normalize_stable_example =
    normalize_stable forward backward forward-IsOrder backward-IsOrder
      (user "bob" ∷ user "ann" ∷ []) (user "bob" ∷ user "ann" ∷ []) (λ t. (λ m. m, λ m. m))
      users-DistinctNames

abbrev robot : Subject
robot = record { kind = "ServiceAccount"; api_group = ""; name = "ann"; namespace = "ns" }

normalize_unstable_example :
    normalize forward (user "ann" ∷ robot ∷ []) ≢ normalize backward (user "ann" ∷ robot ∷ [])
normalize_unstable_example = normalize_unstable (user "ann") robot (λ p. cc) refl

abbrev teams : GroupMap
teams = ("g", people) ∷ ("h", user "cid" ∷ []) ∷ []

teams-UniqueKeys : UniqueKeys teams
unfolding lookup string_eq
teams-UniqueKeys = (refl, (refl, tt))

merged_members_lem_example :
    (merged_members failures Unit forward (merge failures Unit (one_user ∷ clueless ∷ [])) "g" tt).0
    ≡ answer failures Unit forward "g"
        (judge failures Unit (replies failures Unit (one_user ∷ clueless ∷ []) "g" tt))
merged_members_lem_example =
    merged_members_lem failures Unit forward (one_user ∷ clueless ∷ []) "g" tt

-- A source that cannot tell.
clueless-fails :
    (merged_members failures Unit forward (merge failures Unit (clueless ∷ [])) "g" tt).0
    ≡ err (wrapped (known err_unknown) "unknown error fetching group members")
clueless-fails =
    merged_members_lem failures Unit forward (clueless ∷ []) "g" tt
    ∙ unfold judge replies answer in
      rw (is_not_found-other failures failures-IsLawful err_unknown (λ p. cc)) refl

merged_members-err_example :
    ((judge failures Unit (replies failures Unit (clueless ∷ []) "g" tt) ≡ ok [])
      × (is_not_found failures (wrapped (known err_unknown) "unknown error fetching group members")
          ≡ true))
    ⊎ ((x : Failure) × (judge failures Unit (replies failures Unit (clueless ∷ []) "g" tt) ≡ err x)
        × (is_not_found failures
              (wrapped (known err_unknown) "unknown error fetching group members")
            ≡ false)
        × (is_unknown_memberships failures
              (wrapped (known err_unknown) "unknown error fetching group members")
            ≡ is_unknown_memberships failures x))
merged_members-err_example =
    merged_members-err failures Unit failures-IsLawful forward "g" (clueless ∷ []) tt
      (wrapped (known err_unknown) "unknown error fetching group members") clueless-fails

one_user-ErrorsClassified : ErrorsClassified failures Unit one_user
one_user-ErrorsClassified group u e h = cc

abbrev some_members : List Membership
some_members = record { group = "g"; subjects = people } ∷ []

lookup-static_groups_example :
    lookup "g" (static_groups backward some_members) ≡ some (normalize backward people)
unfolding subjects_in string_eq
lookup-static_groups_example = lookup-static_groups backward backward-IsOrder some_members "g"

resolve_groups-ErrorsClassified_example :
    ErrorsClassified failures Unit
      (resolve_groups forward failures Unit (some one_user) some_members)
    × ErrorsClassified failures Unit (resolve_groups forward failures Unit none some_members)
resolve_groups-ErrorsClassified_example =
    resolve_groups-ErrorsClassified forward failures failures-IsLawful Unit one_user some_members
      one_user-ErrorsClassified

resolve_groups-ok_example :
    (r : List Subject) × ((resolve_groups backward failures Unit
        (some one_user)
        some_members
        "g"
        tt).0
      ≡ ok r)
    × ((t : Subject) → Mem t r ↔ Mem t (people ++ user "ann" ∷ []))
    × Nodup r
    × IsSorted r
unfolding subjects_in judge prefix string_eq
resolve_groups-ok_example =
    resolve_groups-ok backward failures failures-IsLawful Unit backward-IsOrder one_user
      some_members "g" tt (user "ann" ∷ []) refl (λ p. cc)

abbrev first_map : GroupMap
first_map = ("g", user "bob" ∷ []) ∷ []

abbrev second_map : GroupMap
second_map = ("g", user "ann" ∷ []) ∷ []

merge_into-eq-merge_example :
    (l : List Subject) × (lookup "g" (merge_into backward (deep_copy forward first_map) second_map)
      ≡ some l)
    × ((merged_members failures Unit forward
          (merge failures Unit
            (members failures Unit first_map ∷ members failures Unit second_map ∷ []))
          "g"
          tt).0
        ≡ ok l)
unfolding lookup subjects_of string_eq
merge_into-eq-merge_example =
    merge_into-eq-merge failures failures-IsLawful Unit first_map second_map "g" tt forward backward
      forward forward-IsOrder backward-IsOrder forward-IsOrder (refl, tt) (refl, tt) refl
      users-DistinctNames (λ p. cc)
