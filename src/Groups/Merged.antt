-- ===== src/Groups/Merged.antt =====
-- pkg/groups/merged.go: several sources read as one.
pub mod Laws
pub mod Errors
pub mod Agreement
use rbacsync.Prelude.{String, List, [], ◌∷◌, if◌then◌else◌}
use rbacsync.Api.{Subject}
use rbacsync.Errors.{ErrorPackage, Result, ok, err, err_not_found, text, is_not_found}
use rbacsync.Groups.{Grouper, Reply}
use rbacsync.Groups.Subjects.{MapOrder, add_all, normalize_uniq}

module _ (P : ErrorPackage) (U : Type 0) where
  -- The type Merged, which Merge fills.
  pub record Merged : Type 0 where
    pub groupers : List (Grouper P U)

  unfoldable pub merge : List (Grouper P U) → Merged
  merge groupers = record { groupers = groupers }

  -- The loop of Members over the groupers, with the set of subjects that were found.
  collect : List (Grouper P U) → String → List Subject → U → Result P.Error (List Subject) × U
  collect [] group uniq u = (ok uniq, u)
  collect (grouper ∷ groupers) group uniq u =
      let (reply, u') = grouper group u in
      elim reply [
        | err e ↦
            let rest = collect groupers group uniq u' in
            if is_not_found P e
            then rest
            else (err (P.wrap e "unknown error fetching group members"), u')
        | ok subjects ↦ collect groupers group (add_all subjects uniq) u'
      ]

  module _ (o : MapOrder) where
    finish : String → Result P.Error (List Subject) → Reply P U
    finish group (err e) = err e
    finish group (ok []) =
        err (P.wrapf (P.sentinel err_not_found) "no members in %q" (text group ∷ []))
    finish group (ok (s ∷ uniq)) = ok (normalize_uniq o (s ∷ uniq))

    -- Merged.Members
    unfoldable pub merged_members : Merged → Grouper P U
    unfolding collect finish
    merged_members m group u =
        let (found, u') = collect m.groupers group [] u in (finish group found, u')
