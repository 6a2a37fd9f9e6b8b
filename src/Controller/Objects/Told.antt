-- ===== src/Controller/Objects/Told.antt =====
-- Whether a handler has done what it reports to have done.
use mathlib.Core.List.{append-nil}
use rbacsync.Prelude.{String, refl, sym, ap, subst, inl, inr, List, []}
use rbacsync.Api.{Config}
use rbacsync.Errors.{ErrorPackage, Result-cases}
use rbacsync.Groups.{Grouper}
use rbacsync.Kube.{Kube, Scope}
use rbacsync.Kube.Server.{Server}
use rbacsync.Controller.Effects.{World}
use rbacsync.Controller.Bindings.Truth.{Adds, AllTrue-kept}
use rbacsync.Controller.Bindings.Configured.{NoDelete, bind_all-Adds}
use rbacsync.Controller.Cleanup.{clean_up}
use rbacsync.Controller.Cleanup.Truth.{IsGone, clean_all-Adds}
use rbacsync.Controller.Objects.{selected, clean_up_lem, bound, handled, handle_lem}

module _ (P : ErrorPackage) (K : Kube P) (S : Server P K) (U : Type 0) (sc : Scope)
    (config : Config) where
  clean_up-Adds :
      (active : List String) (v w : World P K U)
      → Adds P K S U sc config (IsGone P K S U sc config) active v w
      → Adds P K S U sc config
          (IsGone P K S U sc config)
          active
          v
          (clean_up P K U sc config active w).1
  clean_up-Adds active v w so_far =
      let True =
        λ (x : World P K U). Adds P K S U sc config (IsGone P K S U sc config) active v x in
      elim (Result-cases (selected P K S U sc config w.server)) [
        | inl (objects, p) ↦
            subst True (sym (ap (λ r. r.1) ((clean_up_lem P K S U sc config active w).1 objects p)))
              (clean_all-Adds P K S U sc config active objects v w so_far)
        | inr (e, p) ↦ subst True (sym ((clean_up_lem P K S U sc config active w).0 e p)) so_far
      ]

  -- A handler keeps the effects that are there and adds others, and what these report as done is so
  -- when it has run: an object that is reported as configured is there under the reported name, and
  -- none is there under a name that is reported as deleted.
  pub handle-Adds :
      (gm : Grouper P U) (w : World P K U)
      → Adds P K S U sc config
          (IsGone P K S U sc config)
          (bound P K S U sc config gm w).0
          w
          (handled P K S U sc config gm w)
  handle-Adds gm w =
      let (active, v) = bound P K S U sc config gm w in
      let (es, added, told) =
        bind_all-Adds P K S U sc config gm config.spec.bindings [] w w
          ([], sym (append-nil w.effects), tt) in
      subst (λ r. Adds P K S U sc config (IsGone P K S U sc config) active w r.1)
        (sym (handle_lem P K S U sc config gm w))
        (clean_up-Adds active w v (
          es,
          added,
          AllTrue-kept P K S U sc config (NoDelete P K S U sc config) (IsGone P K S U sc config) es
              active active v.server v.server (λ n m. m) (λ n m. refl) (λ x never. absurd never)
              told,
        ))
