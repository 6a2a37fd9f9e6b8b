-- ===== src/Controller/Objects/Bound.antt =====
-- What the objects are that the bindings of a config stand for, once a handler has run.
use rbacsync.Prelude.{
  String, string_eq, ◌≡◌, ◌≢◌, refl, sym, ◌∙◌, ap, subst, true, false, none, some, List, [], ◌∷◌,
  ◌++◌, arith, contains,
}
use rbacsync.Api.{Subject, Binding, Config}
use rbacsync.Errors.{ErrorPackage, ok, err, is_not_found, is_unknown_memberships}
use rbacsync.Groups.{Grouper}
use rbacsync.Kube.{Kube, Scope, scope_eq}
use rbacsync.Kube.Server.{Server}
use rbacsync.Controller.Effects.{World}
use rbacsync.Controller.Bindings.{
  Object, bound_name, kind_is_valid, object_for, create_or_update, bind_one, bind_all,
}
use rbacsync.Controller.Bindings.Writes.{Wrote, create_or_update_lem, bind_one-ok}
use rbacsync.Controller.Bindings.Loop.{
  target, bound_names, bind_all-present, bind_all-marks, bind_all-kept, bind_all-unmarked,
  bind_all-append,
}
use rbacsync.Controller.Objects.{bound, handled, handle-marked}

module _ (P : ErrorPackage) (K : Kube P) (S : Server P K) (U : Type 0) (sc : Scope)
    (config : Config) (gm : Grouper P U) where
  -- The loop over the bindings, cut in front of one of them.
  pub bound-cut :
      (w : World P K U) (front back : List Binding) (b : Binding)
      → config.spec.bindings ≡ front ++ b ∷ back
      → let (active, v) = bind_all P K U sc config gm front [] w in
        let (active', v') = bind_one P K U sc config gm b active v in
        bound P K S U sc config gm w ≡ bind_all P K U sc config gm back active' v'
  unfolding bind_all
  bound-cut w front back b h =
      rw (ap (λ bs. bind_all P K U sc config gm bs [] w) h)
        (bind_all-append P K S U sc config gm front (b ∷ back) [] w)

  -- The grouper fails for a group, whenever it is asked, with an error that leaves the memberships
  -- unknown.
  abbrev pub IsUnknown : String → Type 0
  IsUnknown group =
      (u : U)
      → (e : P.Error) × ((gm group u).0 ≡ err e)
        × (is_not_found P e ≡ false)
        × (is_unknown_memberships P e ≡ true)

  pub unknown-marks :
      (b : Binding) (active : List String) (w : World P K U)
      → kind_is_valid sc b.role_ref.kind ≡ true
      → IsUnknown b.group
      → contains (bind_one P K U sc config gm b active w).0 (bound_name config b) ≡ true
  unfolding bind_one
  unknown-marks b active w valid unknown =
      let (e, failed, found, lost) = unknown w.upstream in ground arith

  -- While the memberships of a group cannot be looked up, no handler deletes the object of a valid
  -- binding of the group.
  pub handle-keeps_unknown :
      (w : World P K U) (front back : List Binding) (b : Binding)
      → config.spec.bindings ≡ front ++ b ∷ back
      → kind_is_valid sc b.role_ref.kind ≡ true
      → IsUnknown b.group
      → S.get (target sc config (bound_name config b)) w.server ≢ none
      → S.get (target sc config (bound_name config b)) (handled P K S U sc config gm w).server
        ≢ none
  handle-keeps_unknown w front back b h valid unknown there =
      let (active, v) = bind_all P K U sc config gm front [] w in
      let (active', v') = bind_one P K U sc config gm b active v in
      let n = bound_name config b in
      let cut = bound-cut w front back b h in
      let marks : contains (bound P K S U sc config gm w).0 n ≡ true = rw cut (
        bind_all-marks P K S U sc config gm back active' v' n
          (unknown-marks b active v valid unknown)) in
      λ gone.
        bind_all-present P K S U sc config gm config.spec.bindings [] w _ there
          (sym (handle-marked P K S U sc config gm w n marks) ∙ gone)

  -- The writes of an object succeed.
  abbrev pub Writes : Object P K U sc → Type 0
  Writes object =
      (s : K.State) → (r : Object P K U sc) × ((create_or_update P K U sc object s).0 ≡ ok r)

  pub write-done :
      (b : Binding) (m : Subject) (members : List Subject) (active : List String) (w : World P K U)
      → kind_is_valid sc b.role_ref.kind ≡ true
      → ((u : U) → (gm b.group u).0 ≡ ok (m ∷ members))
      → contains active (bound_name config b) ≡ false
      → Writes (object_for P K U sc config b (m ∷ members))
      → let (active', w') = bind_one P K U sc config gm b active w in
        (contains active' (bound_name config b) ≡ true)
        × (S.get (target sc config (bound_name config b)) w'.server
            ≡ some (S.stored (object_for P K U sc config b (m ∷ members))))
  unfolding object_for
  write-done b m members active w valid has fresh writes =
      let object = object_for P K U sc config b (m ∷ members) in
      let (r, done) = writes w.server in
      let (marks, server) =
        bind_one-ok P K U sc config gm b m members active w valid (has w.upstream) fresh r done in
      let t = (create_or_update P K U sc object w.server).1 in
      let (same, sets) =
        subst (λ y. Wrote P K S U sc object w.server (y, t)) done
          (create_or_update_lem P K S U sc object w.server) in
      let name = ap (λ (x : Object P K U sc). x.name) same ∙ S.stored-name object in
      (
        rw marks (ground arith),
        rw server (ground (arith, sets (target sc config (bound_name config b)))),
      )

  -- Take a valid binding whose group has members whenever it is looked up, and whose name no valid
  -- binding in front of it has. If the writes of its object succeed, then the handler leaves the
  -- object under its name, with exactly those members, as the server stores it.
  pub handle-binds :
      (w : World P K U) (front back : List Binding) (b : Binding) (m : Subject)
      (members : List Subject)
      → config.spec.bindings ≡ front ++ b ∷ back
      → kind_is_valid sc b.role_ref.kind ≡ true
      → ((u : U) → (gm b.group u).0 ≡ ok (m ∷ members))
      → contains (bound_names sc config front) (bound_name config b) ≡ false
      → Writes (object_for P K U sc config b (m ∷ members))
      → S.get (target sc config (bound_name config b)) (handled P K S U sc config gm w).server
        ≡ some (S.stored (object_for P K U sc config b (m ∷ members)))
  handle-binds w front back b m members h valid has first writes =
      let (active, v) = bind_all P K U sc config gm front [] w in
      let (active', v') = bind_one P K U sc config gm b active v in
      let n = bound_name config b in
      let cut = bound-cut w front back b h in
      let fresh : contains active n ≡ false =
        bind_all-unmarked P K S U sc config gm front [] w n refl first in
      let (marks, there) = write-done b m members active v valid has fresh writes in
      let marked : contains (bound P K S U sc config gm w).0 n ≡ true =
        rw cut (bind_all-marks P K S U sc config gm back active' v' n marks) in
      handle-marked P K S U sc config gm w n marked
      ∙ rw cut (bind_all-kept P K S U sc config gm back active' v' n marks)
      ∙ there
