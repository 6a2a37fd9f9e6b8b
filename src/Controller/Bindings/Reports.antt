-- ===== src/Controller/Bindings/Reports.antt =====
-- What the loop over the bindings reports: events, and gauges that count them.
use mathlib.Core.List.{append_assoc}
use rbacsync.Prelude.{
  String, string_eq, ◌≡◌, refl, true, inl, inr, Bool-cases, List, [], ◌∷◌, ◌++◌, arith, contains,
}
use rbacsync.Api.{Binding, Config}
use rbacsync.Errors.{ErrorPackage, Result, ok, err, Arg, is_not_found, is_unknown_memberships}
use rbacsync.Errors.Kinds.{IsClassified}
use rbacsync.Groups.{Grouper, Reply}
use rbacsync.Groups.Merged.Errors.{ErrorsClassified}
use rbacsync.Kube.{Kube, Scope}
use rbacsync.Controller.Effects.{World, report, event, inc, EventType, Gauge, Reason}
use rbacsync.Controller.Bindings.{
  Object, bound_name, kind_is_valid, object_for, create_or_update, written, write, with_members,
  bind_one, bind_all,
}

module _ (P : ErrorPackage) (K : Kube P) (U : Type 0) where
  -- The effects of the second world are those of the first, an event, and one more in the gauge
  -- for the reason of the event.
  pub data Reported (v w : World P K U) : Type 0 where
    reported :
        (type : EventType) (reason : Reason) (format : String) (args : List (Arg P.Error))
        (gauge : Gauge) (kind : String)
        → w.effects ≡ v.effects ++ event type reason format args ∷ inc gauge kind reason ∷ []
        → Reported v w

  report-Reported :
      (v w : World P K U)
      → w.effects ≡ v.effects
      → (type : EventType) (reason : Reason) (format : String) (args : List (Arg P.Error))
        (gauge : Gauge) (kind : String)
      → Reported v (report P K U type reason format args gauge kind w)
  unfolding report
  report-Reported v w same type reason format args gauge kind =
      reported type reason format args gauge kind (rw same (rw append_assoc))

  module _ (sc : Scope) (config : Config) where
    written-Reported :
        (object : Object P K U sc) (result : Result P.Error (Object P K U sc))
        (active : List String) (v w : World P K U)
        → w.effects ≡ v.effects
        → Reported v (written P K U sc config object result active w).1
    unfolding written
    written-Reported object (ok created) active v w same = report-Reported v w same _ _ _ _ _ _
    written-Reported object (err e) active v w same = report-Reported v w same _ _ _ _ _ _

    write-Reported :
        (object : Object P K U sc) (active : List String) (v w : World P K U)
        → w.effects ≡ v.effects
        → Reported v (write P K U sc config object active w).1
    unfolding write
    write-Reported object active v w same =
        let (result, server) = create_or_update P K U sc object w.server in
        written-Reported object result active v (record w { server = server }) same

    with_members-Reported :
        (binding : Binding) (reply : Reply P U) (active : List String) (v w : World P K U)
        → w.effects ≡ v.effects
        → ((e : P.Error) → reply ≡ err e → IsClassified P e)
        → Reported v (with_members P K U sc config binding reply active w).1
    unfolding with_members
    with_members-Reported binding (ok []) active v w same known =
        report-Reported v w same _ _ _ _ _ _
    with_members-Reported binding (ok (m ∷ members)) active v w same known =
        elim (Bool-cases (contains active (bound_name config binding))) [
          | inl seen ↦ rw seen (report-Reported v w same _ _ _ _ _ _)
          | inr fresh ↦
              rw fresh
                (write-Reported (object_for P K U sc config binding (m ∷ members)) active v w same)
        ]
    with_members-Reported binding (err e) active v w same known =
        elim (Bool-cases (is_not_found P e)) [
          | inl absent ↦ rw absent (report-Reported v w same _ _ _ _ _ _)
          | inr other ↦
              let lost : is_unknown_memberships P e ≡ true = ground (arith, known e) in
              rw (other, lost) (report-Reported v w same _ _ _ _ _ _)
        ]

    module _ (gm : Grouper P U) where
      bind_one-Reported :
          ErrorsClassified P U gm
          → (binding : Binding) (active : List String) (w : World P K U)
          → Reported w (bind_one P K U sc config gm binding active w).1
      unfolding bind_one
      bind_one-Reported classified binding active w =
          elim (Bool-cases (kind_is_valid sc binding.role_ref.kind)) [
            | inl valid ↦ rw valid (
                with_members-Reported binding _ active w _ refl
                  (classified binding.group w.upstream))
            | inr wrong ↦ rw wrong (report-Reported w w refl _ _ _ _ _ _)
          ]

      -- One report for each of the bindings, in their order.
      abbrev pub Reports : List Binding → World P K U → World P K U → Type 0
      Reports [] v w = w ≡ v
      Reports (binding ∷ bindings) v w = (u : World P K U) × Reported v u × Reports bindings u w

      -- If the errors of the grouper are classified, then the loop reports on every binding by one
      -- event, which one gauge counts under its reason; it reports nothing else.
      pub bind_all-Reports :
          ErrorsClassified P U gm
          → (bindings : List Binding) (active : List String) (w : World P K U)
          → Reports bindings w (bind_all P K U sc config gm bindings active w).1
      unfolding bind_all
      bind_all-Reports classified [] active w = refl
      bind_all-Reports classified (binding ∷ bindings) active w = (
        (bind_one P K U sc config gm binding active w).1,
        bind_one-Reported classified binding active w,
        bind_all-Reports classified bindings _ _,
      )
