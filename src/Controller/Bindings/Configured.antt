-- ===== src/Controller/Bindings/Configured.antt =====
-- Whether the loop over the bindings has done what it reports to have done.
use rbacsync.Prelude.{
  String, string_eq, ◌≡◌, refl, ◌∙◌, ap, inl, inr, Bool-cases, List, [], ◌∷◌, arith, contains,
}
use rbacsync.Api.{Subject, Binding, Config}
use rbacsync.Errors.{ErrorPackage, Result, ok, err, is_not_found, is_unknown_memberships}
use rbacsync.Groups.{Grouper, Reply}
use rbacsync.Kube.{Kube, Scope, scope_eq}
use rbacsync.Kube.Server.{Server}
use rbacsync.Controller.Effects.{World}
use rbacsync.Controller.Bindings.{
  Object, bound_name, kind_is_valid, object_for, create_or_update, written, write, with_members,
  bind_one, bind_all,
}
use rbacsync.Controller.Bindings.Writes.{Wrote, create_or_update_lem}
use rbacsync.Controller.Bindings.Loop.{target, bind_all-marks, bind_all-kept}
use rbacsync.Controller.Bindings.Truth.{Adds, Adds-trans, report-Adds}
use mathlib.Core.List.{append-nil}

module _ (P : ErrorPackage) (K : Kube P) (S : Server P K) (U : Type 0) (sc : Scope)
    (config : Config) where
  -- The loop over the bindings reports no deletes.
  abbrev pub NoDelete : Object P K U sc → K.State → Type 0
  NoDelete x s = ⊥

  -- Every effect that is added in the second world is true there.
  abbrev pub Binds : World P K U → List String × World P K U → Type 0
  Binds v (active, w) = Adds P K S U sc config NoDelete active v w

  nothing : (active : List String) (v w : World P K U) → w.effects ≡ v.effects → Binds v (active, w)
  nothing active v w same = ([], rw (same, append-nil) refl, tt)

  written-Adds :
      (binding : Binding) (members : List Subject) (result : Result P.Error (Object P K U sc))
      (active : List String) (v w : World P K U) (t : K.State)
      → w.effects ≡ v.effects
      → let object = object_for P K U sc config binding members in
        Wrote P K S U sc object w.server (result, t)
        → Binds v (written P K U sc config object result active (record w { server = t }))
  unfolding written object_for
  written-Adds binding members (ok created) active v w t same (returned, sets) =
      let name = ap (λ (x : Object P K U sc). x.name) returned ∙ S.stored-name _ in
      report-Adds P K S U sc config NoDelete (created.name ∷ active) v (record w { server = t })
        same _ _ _ _ _ _
        (
          created,
          refl,
          ground arith,
          ground (arith, name, returned, sets (target sc config created.name)),
        )
  written-Adds binding members (err e) active v w t same kept =
      report-Adds P K S U sc config NoDelete active v (record w { server = t }) same _ _ _ _ _ _ tt

  write-Adds :
      (binding : Binding) (members : List Subject) (active : List String) (v w : World P K U)
      → w.effects ≡ v.effects
      → Binds v (write P K U sc config (object_for P K U sc config binding members) active w)
  unfolding write
  write-Adds binding members active v w same =
      let object = object_for P K U sc config binding members in
      let (result, t) = create_or_update P K U sc object w.server in
      written-Adds binding members result active v w t same
        (create_or_update_lem P K S U sc object w.server)

  with_members-Adds :
      (binding : Binding) (reply : Reply P U) (active : List String) (v w : World P K U)
      → w.effects ≡ v.effects
      → Binds v (with_members P K U sc config binding reply active w)
  unfolding with_members
  with_members-Adds binding (ok []) active v w same =
      report-Adds P K S U sc config NoDelete active v w same _ _ _ _ _ _ tt
  with_members-Adds binding (ok (m ∷ members)) active v w same =
      elim (Bool-cases (contains active (bound_name config binding))) [
        | inl seen ↦ rw seen (report-Adds P K S U sc config NoDelete active v w same _ _ _ _ _ _ tt)
        | inr fresh ↦ rw fresh (write-Adds binding (m ∷ members) active v w same)
      ]
  with_members-Adds binding (err e) active v w same = elim (Bool-cases (is_not_found P e)) [
    | inl absent ↦ rw absent (report-Adds P K S U sc config NoDelete active v w same _ _ _ _ _ _ tt)
    | inr other ↦ elim (Bool-cases (is_unknown_memberships P e)) [
      | inl lost ↦
          rw (other, lost)
            (report-Adds P K S U sc config NoDelete (bound_name config binding ∷ active) v w same _
              _ _ _ _ _ tt)
      | inr silent ↦ rw (other, silent) (nothing active v w same)
    ]
  ]

  module _ (gm : Grouper P U) where
    bind_one-Adds :
        (binding : Binding) (active : List String) (w : World P K U)
        → Binds w (bind_one P K U sc config gm binding active w)
    unfolding bind_one
    bind_one-Adds binding active w = elim (Bool-cases (kind_is_valid sc binding.role_ref.kind)) [
      | inl valid ↦ rw valid (with_members-Adds binding _ active w _ refl)
      | inr wrong ↦ rw wrong (report-Adds P K S U sc config NoDelete active w w refl _ _ _ _ _ _ tt)
    ]

    -- A report of the loop that a binding is configured stays true to its end.
    pub bind_all-Adds :
        (bindings : List Binding) (active : List String) (v w : World P K U)
        → Binds v (active, w)
        → Binds v (bind_all P K U sc config gm bindings active w)
    unfolding bind_all
    bind_all-Adds [] active v w so_far = so_far
    bind_all-Adds (b ∷ bindings) active v w so_far =
        let (active', w') = bind_one P K U sc config gm b active w in
        bind_all-Adds bindings active' v w' (
          Adds-trans P K S U sc config NoDelete NoDelete active active' v w w'
            (bind_all-marks P K S U sc config gm (b ∷ []) active w)
            (bind_all-kept P K S U sc config gm (b ∷ []) active w) (λ x never. never) so_far
            (bind_one-Adds b active w))
