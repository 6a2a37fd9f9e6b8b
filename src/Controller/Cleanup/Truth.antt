-- ===== src/Controller/Cleanup/Truth.antt =====
-- Whether a handler has done what it reports to have done.
use mathlib.Core.List.{append-nil}
use rbacsync.Prelude.{
  String, string_eq, ◌≡◌, refl, ◌∙◌, inl, inr, Bool-cases, Option, none, some, List, [], ◌∷◌, arith,
  contains,
}
use rbacsync.Api.{Config}
use rbacsync.Errors.{ErrorPackage}
use rbacsync.Kube.{Kube, Scope, scope_eq}
use rbacsync.Kube.Server.{Server}
use rbacsync.Controller.Effects.{World, emit}
use rbacsync.Controller.Bindings.{Object, namespace_of}
use rbacsync.Controller.Bindings.Loop.{target}
use rbacsync.Controller.Bindings.Truth.{Adds, Adds-trans, report-Adds}
use rbacsync.Controller.Cleanup.{deleted, clean_one, clean_all}
use rbacsync.Controller.Cleanup.Loop.{clean_one_lem, one-spared, one-absent}

module _ (P : ErrorPackage) (K : Kube P) (S : Server P K) (U : Type 0) (sc : Scope)
    (config : Config) where
  -- There is no object under the name.
  abbrev pub IsGone : Object P K U sc → K.State → Type 0
  IsGone x s = S.get (target sc config x.name) s ≡ none

  -- The world after the call of Delete.
  abbrev asked : Object P K U sc → World P K U → World P K U
  asked object w = record w {
    server = (K.delete sc (namespace_of sc config) object.name w.server).1;
  }

  deleted-Adds :
      (active : List String) (object : Object P K U sc) (failure : Option P.Error) (w : World P K U)
      → (K.delete sc (namespace_of sc config) object.name w.server).0 ≡ failure
      → Adds P K S U sc config IsGone active w
          (deleted P K U sc config object failure (asked object w))
  unfolding deleted
  deleted-Adds active object none w h =
      let j = target sc config object.name in
      report-Adds P K S U sc config IsGone active w (asked object w) refl _ _ _ _ _ _
        (object, refl, ground (arith, S.get-delete j j w.server h))
  deleted-Adds active object (some e) w h = elim (Bool-cases (K.is_not_found e)) [
    | inr other ↦
        rw other
          (report-Adds P K S U sc config IsGone active w (asked object w) refl _ _ _ _ _ _ tt)
    | inl absent ↦
        let j = target sc config object.name in
        rw absent (
          report-Adds P K S U sc config IsGone active w (asked object w) refl _ _ _ _ _ _ (
            object,
            refl,
            S.get-delete_failed j j w.server e h ∙ S.delete_not_found j w.server e h absent,
          ))
  ]

  clean_one-Adds :
      (active : List String) (object : Object P K U sc) (w : World P K U)
      → Adds P K S U sc config IsGone active w (clean_one P K U sc config active object w)
  unfolding clean_one emit
  clean_one-Adds active object w = elim (Bool-cases (K.is_controlled_by object config.metadata)) [
    | inr other ↦ rw other (_ ∷ [], refl, (tt, tt))
    | inl owned ↦ rw owned (elim (Bool-cases (contains active object.name)) [
      | inl busy ↦ rw busy ([], rw append-nil refl, tt)
      | inr idle ↦ rw idle (deleted-Adds active object _ w refl)
    ])
  ]

  -- What was reported stays true to the end of the loop over the objects, with its own reports.
  pub clean_all-Adds :
      (active : List String) (objects : List (Object P K U sc)) (v w : World P K U)
      → Adds P K S U sc config IsGone active v w
      → Adds P K S U sc config IsGone active v (clean_all P K U sc config active objects w)
  unfolding clean_all
  clean_all-Adds active [] v w so_far = so_far
  clean_all-Adds active (object ∷ objects) v w so_far =
      let w' = clean_one P K U sc config active object w in
      let one = clean_one_lem P K S U sc config active object w in
      clean_all-Adds active objects v w' (
        Adds-trans P K S U sc config IsGone IsGone active active v w w' (λ n m. m)
          (λ n m. one-spared P K S U sc config one _ (λ owned idle. ground arith))
          (λ x gone. one-absent P K S U sc config one _ gone) so_far
          (clean_one-Adds active object w))
