-- ===== src/Controller/Resolve/Merging.antt =====
-- The groups of a config together with those of the controller's grouper.
use mathlib.Core.List.{Mem, Nodup}
use rbacsync.Prelude.{
  String, string_eq, ◌≡◌, ◌≢◌, ◌↔◌, ◌∙◌, Option, none, some, List, [], ◌∷◌, ◌++◌, arith,
}
use rbacsync.Prelude.Dict.{lookup}
use rbacsync.Api.{Subject, subject_eq, Membership}
use rbacsync.Errors.{ErrorPackage, IsLawful, ok, err_not_found, text}
use rbacsync.Errors.Kinds.{wrapf_kind, is_not_found-sentinel, sentinel-IsClassified}
use rbacsync.Groups.{Grouper}
use rbacsync.Groups.Subjects.{MapOrder, IsOrder, normalize}
use rbacsync.Groups.Subjects.Order.{IsSorted}
use rbacsync.Groups.Subjects.Laws.{normalize_lem, mem-normalize}
use rbacsync.Groups.GroupMap.{GroupMap, subjects_of, members}
use rbacsync.Groups.Merged.Laws.{replies, judge, answer-ok, merged_members_lem}
use rbacsync.Groups.Merged.Errors.{ErrorsClassified, merged_members-ErrorsClassified}
use rbacsync.Controller.Resolve.{static_groups, resolve_groups}
use rbacsync.Controller.Resolve.Laws.{
  subjects_in, mem-append_cong, nonempty, entry_for, lookup-static_groups,
}

module _ (o : MapOrder) where
  module _ (P : ErrorPackage) (L : IsLawful P) (U : Type 0) where
    members-ErrorsClassified : (gm : GroupMap) → ErrorsClassified P U (members P U gm)
    unfolding members
    members-ErrorsClassified gm group u e h =
        ground
          (arith, sentinel-IsClassified P L err_not_found "subjects in group %v" (text group ∷ []))

    -- If the errors of the controller's grouper are classified, so are those of the groups that a
    -- config resolves to, with a grouper and without one.
    pub resolve_groups-ErrorsClassified :
        (grouper : Grouper P U) (ms : List Membership)
        → ErrorsClassified P U grouper
        → ErrorsClassified P U (resolve_groups o P U (some grouper) ms)
          × ErrorsClassified P U (resolve_groups o P U none ms)
    unfolding resolve_groups
    resolve_groups-ErrorsClassified grouper ms known = (
      merged_members-ErrorsClassified P U L o (members P U (static_groups o ms) ∷ grouper ∷ [])
          (members-ErrorsClassified (static_groups o ms), (known, tt)),
      members-ErrorsClassified (static_groups o ms),
    )

    judge-static :
        (ms : List Membership) (group : String) (grouper : Grouper P U) (u : U) {l : List Subject}
        → judge P U ((grouper group u).0 ∷ []) ≡ ok l
        → judge P U (replies P U (members P U (static_groups o ms) ∷ grouper ∷ []) group u)
          ≡ ok (subjects_of (static_groups o ms) group ++ l)
    unfolding judge replies members subjects_of
    judge-static ms group grouper u h = ground (
      arith,
      wrapf_kind P L (P.sentinel err_not_found) "subjects in group %v" (text group ∷ []),
      is_not_found-sentinel P L,
    )

    list_of : Option (List Subject) → List Subject
    list_of none = []
    list_of (some l) = l

    mem-entry :
        IsOrder o → (xs : List Subject) (t : Subject) → Mem t (list_of (entry_for o xs)) ↔ Mem t xs
    unfolding list_of
    mem-entry O [] t = (λ m. m, λ m. m)
    mem-entry O (s ∷ ss) t = mem-normalize o O (s ∷ ss) t

    subjects_of-eq : (gm : GroupMap) (g : String) → subjects_of gm g ≡ list_of (lookup g gm)
    unfolding subjects_of list_of
    subjects_of-eq gm g = ground arith

    mem-static :
        IsOrder o
        → (ms : List Membership) (group : String) (t : Subject)
        → Mem t (subjects_of (static_groups o ms) group) ↔ Mem t (subjects_in group ms)
    mem-static O ms group t =
        rw (subjects_of-eq (static_groups o ms) group, lookup-static_groups o O ms group)
          (mem-entry O (subjects_in group ms) t)

    -- Take a group of which the memberships or the grouper name a subject, where the grouper
    -- answers with a list or with "not found". Then the config's group has members, namely those
    -- that either names; each is listed once, and they are ordered by name.
    pub resolve_groups-ok :
        IsOrder o
        → (grouper : Grouper P U) (ms : List Membership) (group : String) (u : U) (l : List Subject)
        → judge P U ((grouper group u).0 ∷ []) ≡ ok l
        → subjects_in group ms ++ l ≢ []
        → (r : List Subject) × ((resolve_groups o P U (some grouper) ms group u).0 ≡ ok r)
          × ((t : Subject) → Mem t r ↔ Mem t (subjects_in group ms ++ l))
          × Nodup r
          × IsSorted r
    unfolding resolve_groups
    resolve_groups-ok O grouper ms group u l said some_subject =
        let xs = subjects_of (static_groups o ms) group ++ l in
        let there = mem-append_cong l (λ t. (mem-static O ms group t).0) in
        let back = mem-append_cong l (λ t. (mem-static O ms group t).1) in
        let (same, once, sorted) = normalize_lem o O xs in
        (
          normalize o xs,
          merged_members_lem P U o (members P U (static_groups o ms) ∷ grouper ∷ []) group u
              ∙ rw (judge-static ms group grouper u said)
                  (answer-ok P U o group xs (nonempty back some_subject)),
          λ t. (λ m. there t ((same t).0 m), λ m. (same t).1 (back t m)),
          once,
          sorted,
        )
