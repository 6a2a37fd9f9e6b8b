-- ===== src/Controller/Objects/Gone.antt =====
-- Which objects of a config are gone once a handler has run.
use rbacsync.Prelude.{
  string_eq, ◌≡◌, refl, ◌∙◌, ap, subst, true, false, Option, none, List, [], ◌∷◌, ◌++◌, contains,
}
use rbacsync.Api.{Subject, Binding, Config}
use rbacsync.Errors.{ErrorPackage, ok, err}
use rbacsync.Groups.{Grouper}
use rbacsync.Kube.{Kube, Scope, scope_eq}
use rbacsync.Kube.Server.{Server}
use rbacsync.Controller.Effects.{World}
use rbacsync.Controller.Bindings.{
  Object, bound_name, kind_is_valid, object_for, create_or_update, bind_one, bind_all,
}
use rbacsync.Controller.Bindings.Writes.{bind_one-err}
use rbacsync.Controller.Bindings.Loop.{target, bound_names, bind_all-unmarked}
use rbacsync.Controller.Cleanup.Loop.{Deletes, clean_all-gone}
use rbacsync.Controller.Objects.{bound, handled, selected, clean_up_lem, handle_lem}
use rbacsync.Controller.Objects.Bound.{bound-cut}

module _ (P : ErrorPackage) (K : Kube P) (S : Server P K) (U : Type 0) (sc : Scope)
    (config : Config) (gm : Grouper P U) where
  -- The lister, asked after the loop over the bindings, shows the object as the config's own.
  pub record IsListed (w : World P K U) (object : Object P K U sc) : Type 0 where
    pub front : List (Object P K U sc)
    pub back : List (Object P K U sc)
    pub shown :
        selected P K S U sc config (bound P K S U sc config gm w).1.server
        ≡ ok (front ++ object ∷ back)
    pub owned : K.is_controlled_by object config.metadata ≡ true

  -- An object of the config whose name is not marked is deleted.
  unmarked-gone :
      (w : World P K U) (object : Object P K U sc)
      → Deletes P K S U sc config object.name
      → IsListed w object
      → contains (bound P K S U sc config gm w).0 object.name ≡ false
      → S.get (target sc config object.name) (handled P K S U sc config gm w).server ≡ none
  unmarked-gone w object d l idle =
      let look =
        λ (r : Option P.Error × World P K U). S.get (target sc config object.name) r.1.server in
      ap look (handle_lem P K S U sc config gm w)
      ∙ ap look ((clean_up_lem P K S U sc config _ _).1 _ l.shown)
      ∙ clean_all-gone P K S U sc config _ l.front l.back object _ d l.owned idle

  -- An object that the lister shows as the config's own is gone after the handler if no valid
  -- binding of the config stands for its name, unless the API server refuses to delete it.
  pub handle-removes :
      (w : World P K U) (object : Object P K U sc)
      → Deletes P K S U sc config object.name
      → IsListed w object
      → contains (bound_names sc config config.spec.bindings) object.name ≡ false
      → S.get (target sc config object.name) (handled P K S U sc config gm w).server ≡ none
  handle-removes w object d l unbound =
      unmarked-gone w object d l
        (bind_all-unmarked P K S U sc config gm config.spec.bindings [] w object.name refl unbound)

  -- Take a binding whose group has members whenever it is looked up, and whose name no other valid
  -- binding has. If the writes of its object fail, for whatever reason, then the handler deletes the
  -- object that is there under the name, if the lister shows it as the config's own and the API
  -- server deletes it.
  pub handle-unwritten :
      (w : World P K U) (front back : List Binding) (b : Binding) (m : Subject)
      (members : List Subject) (object : Object P K U sc)
      → config.spec.bindings ≡ front ++ b ∷ back
      → kind_is_valid sc b.role_ref.kind ≡ true
      → ((u : U) → (gm b.group u).0 ≡ ok (m ∷ members))
      → contains (bound_names sc config front) (bound_name config b) ≡ false
      → contains (bound_names sc config back) (bound_name config b) ≡ false
      → ((s : K.State)
          → (e : P.Error) × ((create_or_update P K U sc
                (object_for P K U sc config b (m ∷ members))
                s).0
              ≡ err e))
      → Deletes P K S U sc config object.name
      → IsListed w object
      → object.name ≡ bound_name config b
      → S.get (target sc config (bound_name config b)) (handled P K S U sc config gm w).server
        ≡ none
  handle-unwritten w front back b m members object h valid has before behind fails d l named =
      let (active, v) = bind_all P K U sc config gm front [] w in
      let (active', v') = bind_one P K U sc config gm b active v in
      let n = bound_name config b in
      let fresh : contains active n ≡ false =
        bind_all-unmarked P K S U sc config gm front [] w n refl before in
      let (e, failed) = fails v.server in
      let same =
        bind_one-err P K U sc config gm b m members active v valid (has v.upstream) fresh e
          failed in
      let idle : contains (bound P K S U sc config gm w).0 n ≡ false =
        rw (bound-cut P K S U sc config gm w front back b h)
          (bind_all-unmarked P K S U sc config gm back active' v' n (rw same fresh) behind) in
      subst (λ x. S.get (target sc config x) (handled P K S U sc config gm w).server ≡ none) named
        (unmarked-gone w object d l (rw named idle))
