-- ===== src/Groups.antt =====
-- pkg/groups/grouper.go: the interface of a source of group memberships. A call may read and change
-- the outside world of the source, the type `U`.
use rbacsync.Prelude.{String, List}
use rbacsync.Api.{Subject}
use rbacsync.Errors.{ErrorPackage, Result, ok, err, err_not_found}
pub mod Subjects
pub mod GroupMap
pub mod Merged

module _ (P : ErrorPackage) (U : Type 0) where
  -- The answer of a call of `Members`.
  abbrev pub Reply : Type 0
  Reply = Result P.Error (List Subject)

  -- Grouper: its method `Members`
  abbrev pub Grouper : Type 0
  Grouper = String → U → Reply × U

  -- emptyGrouper
  unfoldable pub empty_grouper : Grouper
  empty_grouper group u = (err (P.sentinel err_not_found), u)
