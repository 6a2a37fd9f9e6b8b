-- ===== src/Controller/System/Laws.antt =====
-- What holds however the controller's goroutines take turns.
use rbacsync.Prelude.{
  String, string_eq, ◌≡◌, refl, ◌∙◌, true, false, Option, List, [], ◌∷◌, contains,
}
use rbacsync.Api.{Config}
use rbacsync.Errors.{ErrorPackage, Result, ok}
use rbacsync.Groups.{Grouper}
use rbacsync.Groups.Subjects.{MapOrder}
use rbacsync.Kube.{Kube, Scope, namespaced, cluster}
use rbacsync.Kube.Server.{Server, Key, same_key}
use rbacsync.Controller.Effects.{World}
use rbacsync.Controller.Resolve.{resolve_groups}
use rbacsync.Controller.Cleanup.{handle_config, handle_cluster_config}
use rbacsync.Controller.Bindings.{Object}
use rbacsync.Controller.Bindings.Loop.{target, bound_names}
use rbacsync.Controller.Objects.{selected, NotOwned, handle-foreign}
use rbacsync.Controller.Queue.{Keys}
use rbacsync.Controller.Queue.Worlds.{process_key-holds}
use rbacsync.Controller.System.{
  System, Step, on_event, on_poll, on_key, Reaches, stop, then_step, handler,
}

module _ (P : ErrorPackage) (K : Kube P) (S : Server P K) (C : Keys P) (o : MapOrder) (U : Type 0)
    (grouper : Option (Grouper P U))
    (get : Scope → String → String → World P K U → Result P.Error Config) where
  -- The key is not one of those that a config stands for, whatever config the listers return.
  abbrev pub IsOutside : Key → Type 0
  IsOutside k =
      (sc : Scope) (namespace name : String) (w : World P K U) (config : Config)
      → get sc namespace name w ≡ ok config
      → (n : String) → same_key k (target sc config n) ≡ false

  abbrev groups : Config → Grouper P U
  groups config = resolve_groups o P U grouper config.spec.memberships

  -- No valid binding of a config that the listers return stands for the key, and the lister of the
  -- objects shows none under the key that is such a config's own.
  abbrev pub IsForeign : Key → Type 0
  IsForeign k =
      (sc : Scope) (namespace name : String) (w : World P K U) (config : Config)
      → get sc namespace name w ≡ ok config
      → ((n : String)
          → contains (bound_names sc config config.spec.bindings) n ≡ true
          → same_key k (target sc config n) ≡ false)
        × ((s : K.State) (objects : List (Object P K U sc))
            → selected P K S U sc config s ≡ ok objects
            → NotOwned P K S U sc config (groups config) objects k)

  handler-foreign :
      (sc : Scope) (config : Config) (w : World P K U) (k : Key)
      → ((n : String)
          → contains (bound_names sc config config.spec.bindings) n ≡ true
          → same_key k (target sc config n) ≡ false)
      → ((s : K.State) (objects : List (Object P K U sc))
          → selected P K S U sc config s ≡ ok objects
          → NotOwned P K S U sc config (groups config) objects k)
      → S.get k (handler P K C o U grouper get sc config w).1.server ≡ S.get k w.server
  unfolding handle_config handle_cluster_config
  handler-foreign namespaced config w k unbound unowned =
      handle-foreign P K S U namespaced config (groups config) w k unbound unowned
  handler-foreign cluster config w k unbound unowned =
      handle-foreign P K S U cluster config (groups config) w k unbound unowned

  step-foreign :
      (k : Key) {s t : System P K C o U grouper get}
      → IsForeign k
      → Step P K C o U grouper get s t
      → S.get k t.world.server ≡ S.get k s.world.server
  step-foreign k out (on_event e) = refl
  step-foreign k out (on_poll sc configs failure) = refl
  step-foreign k {s = s} out (on_key sc key queued) =
      process_key-holds P C (World P K U) sc (get sc) (handler P K C o U grouper get sc)
        (λ w. S.get k w.server ≡ S.get k s.world.server) key _ refl
        (λ namespace name config found.
          let (unbound, unowned) = out sc namespace name s.world config found in
          handler-foreign sc config s.world k unbound unowned)

  -- However events, polls and workers take turns: an object for which no valid binding stands of any
  -- config that the listers return, and which the lister of the objects never shows as such a
  -- config's own, is never written or deleted. It is as it was in every state that the controller
  -- reaches.
  pub Reaches-foreign :
      (k : Key) {s t : System P K C o U grouper get}
      → IsForeign k
      → Reaches P K C o U grouper get s t
      → S.get k t.world.server ≡ S.get k s.world.server
  Reaches-foreign k out stop = refl
  Reaches-foreign k out (then_step before step) =
      step-foreign k out step ∙ Reaches-foreign k out before

  NotOwned-outside :
      (sc : Scope) (config : Config) (objects : List (Object P K U sc)) (k : Key)
      → ((n : String) → same_key k (target sc config n) ≡ false)
      → NotOwned P K S U sc config (groups config) objects k
  NotOwned-outside sc config [] k other = tt
  NotOwned-outside sc config (object ∷ objects) k other =
      (λ owned. other object.name, NotOwned-outside sc config objects k other)

  -- In particular, an object under a key that is not one of those that a config stands for, whatever
  -- config the listers return: one in another namespace, for example.
  pub Reaches-outside :
      (k : Key) {s t : System P K C o U grouper get}
      → IsOutside k
      → Reaches P K C o U grouper get s t
      → S.get k t.world.server ≡ S.get k s.world.server
  Reaches-outside k out = Reaches-foreign k (λ sc namespace name w config found.
      let other = out sc namespace name w config found in
      (λ n _. other n, λ s objects _. NotOwned-outside sc config objects k other))
