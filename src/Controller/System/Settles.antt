-- ===== src/Controller/System/Settles.antt =====
-- From the event of a config to its objects, and in particular in a controller without a grouper.
use rbacsync.Prelude.{
  String, string_eq, ◌≡◌, refl, ◌∙◌, ap, true, Option, none, some, [], ◌∷◌, arith, contains,
  contains-append,
}
use rbacsync.Api.{Config}
use rbacsync.Errors.{ErrorPackage, Result, ok}
use rbacsync.Groups.{Grouper, Reply}
use rbacsync.Groups.Subjects.{MapOrder, IsOrder}
use rbacsync.Kube.{Kube, Scope, namespaced, cluster}
use rbacsync.Kube.Server.{Server}
use rbacsync.Controller.Effects.{World}
use rbacsync.Controller.Bindings.Loop.{target}
use rbacsync.Controller.Objects.Policy.{Policy}
use rbacsync.Controller.Objects.Settled.{IsCalm, settled, handle-settles}
use rbacsync.Controller.Objects.Declared.{
  declared, groups, handle_declared, IsQuiet, handle-declared,
}
use rbacsync.Controller.Resolve.{resolve_groups}
use rbacsync.Controller.Cleanup.{handle, handle_config, handle_cluster_config}
use rbacsync.Controller.Queue.{config_object, Keys, Queues, Handled, looked_for}
use rbacsync.Controller.Queue.Laws.{queue_for, key_list, enqueue-Added, ran, process_key-found}
use rbacsync.Controller.Events.{added, handle_event}
use rbacsync.Controller.System.{System, handler, processed}

module _ (P : ErrorPackage) (K : Kube P) (S : Server P K) (C : Keys P) (o : MapOrder) (U : Type 0)
    (policy : Policy P K) (grouper : Option (Grouper P U))
    (get : Scope → String → String → World P K U → Result P.Error Config) where
  event-queued :
      (sc : Scope) (config : Config) (k : String) (q : Queues P)
      → C.meta_namespace_key (config_object sc config) ≡ ok k
      → contains (queue_for P sc (handle_event P C (added sc config) q)) k ≡ true
  unfolding handle_event
  event-queued sc config k q has =
      let (grown, other) = enqueue-Added P C sc config q in
      let keys : key_list P C sc config ≡ k ∷ [] = rw (key_list, has) in
      rw (grown, keys) (ground (arith, contains-append (queue_for P sc q) (k ∷ []) k))

  abbrev Run : Scope → Type 0
  Run sc = Handled P C (World P K U) sc (get sc) (handler P K C o U grouper get sc)

  ran-fine :
      (sc : Scope) (k : String) (h : Run sc) (r : Option P.Error × World P K U)
      → r.0 ≡ none
      → let h' = ran P C (World P K U) sc (get sc) (handler P K C o U grouper get sc) k h r in
        (h'.errors ≡ h.errors) × (h'.world ≡ r.1)
  ran-fine sc k h (none, w) fine = (refl, refl)
  ran-fine sc k h (some e, w) fine = cc

  abbrev groups_of : Config → Grouper P U
  groups_of config = resolve_groups o P U grouper config.spec.memberships

  handler-handle :
      (sc : Scope) (config : Config) (w : World P K U)
      → handler P K C o U grouper get sc config w ≡ handle P K U sc config (groups_of config) w
  unfolding handle_config handle_cluster_config
  handler-handle namespaced config w = refl
  handler-handle cluster config w = refl

  -- Take a config whose key splits into a namespace and a name, for which the lister returns a
  -- config. When an informer tells that the first was added, its key is in the queue for its kind.
  -- And when a worker takes the key, it reports no error, and settles every object of the config
  -- that the lister returned, if the groups that this one resolves to, with the controller's grouper
  -- or without one, give answers that do not change, the API server keeps to its policy, and the
  -- lister of the objects is current after the loop over the bindings.
  pub added-settles :
      (sc : Scope) (config found : Config) (k namespace name n : String)
      (answers : String → Reply P U) (s : System P K C o U grouper get)
      → C.meta_namespace_key (config_object sc config) ≡ ok k
      → C.split_meta_namespace_key k ≡ ok (namespace, name)
      → get sc
          (looked_for P C (World P K U) sc (get sc) (handler P K C o U grouper get sc) sc namespace)
          name
          s.world
        ≡ ok found
      → IsCalm P K S U sc found (groups_of found) answers policy s.world
      → let s' = record s { queues = handle_event P C (added sc config) s.queues } in
        let h = processed P K C o U grouper get sc k s' in
        (contains (queue_for P sc s'.queues) k ≡ true)
        × (h.errors ≡ s.errors)
        × (S.get (target sc found n) h.world.server
            ≡ settled P K S U sc found
                (groups_of found)
                answers
                policy
                n
                (S.get (target sc found n) s.world.server))
  added-settles sc config found k namespace name n answers s has split shown calm =
      let h : Run sc = record { world = s.world; errors = s.errors } in
      let r = handler P K C o U grouper get sc found s.world in
      let once =
        process_key-found P C (World P K U) sc (get sc) (handler P K C o U grouper get sc) k
          namespace name found h split shown in
      let (fine, done) =
        handle-settles P K S U sc found (groups_of found) answers policy s.world n calm in
      let same = handler-handle sc found s.world in
      let (errors, world) = ran-fine sc k h r (ap (λ x. x.0) same ∙ fine) in
      (
        event-queued sc config k s.queues has,
        ap (λ x. x.errors) once ∙ errors,
        ap (λ x. S.get (target sc found n) x.world.server) once
            ∙ ap (λ w. S.get (target sc found n) w.server) world
            ∙ ap (λ x. S.get (target sc found n) x.1.server) same
            ∙ done,
      )

module _ (P : ErrorPackage) (K : Kube P) (S : Server P K) (C : Keys P) (o : MapOrder) (U : Type 0)
    (policy : Policy P K)
    (get : Scope → String → String → World P K U → Result P.Error Config) where
  handler-declared :
      (sc : Scope) (config : Config) (w : World P K U)
      → handler P K C o U none get sc config w ≡ handle_declared P U o K S policy sc config w
  handler-declared namespaced config w = refl
  handler-declared cluster config w = refl

  -- Take a config whose key splits into a namespace and a name, for which the lister returns a
  -- config. When an informer tells that the first was added, its key is in the queue for its kind.
  -- And when a worker takes the key, it reports no error, and every object of the config that the
  -- lister returned becomes what that config asks for by itself and the API server's policy permits,
  -- if the API server keeps to the policy and the lister of the objects is current after the loop
  -- over the bindings.
  pub event-settles :
      (sc : Scope) (config found : Config) (k namespace name n : String)
      (s : System P K C o U none get)
      → C.meta_namespace_key (config_object sc config) ≡ ok k
      → C.split_meta_namespace_key k ≡ ok (namespace, name)
      → get sc
          (looked_for P C (World P K U) sc (get sc) (handler P K C o U none get sc) sc namespace)
          name
          s.world
        ≡ ok found
      → IsOrder o
      → IsQuiet P U o K S policy sc found s.world
      → let s' = record s { queues = handle_event P C (added sc config) s.queues } in
        let h = processed P K C o U none get sc k s' in
        (contains (queue_for P sc s'.queues) k ≡ true)
        × (h.errors ≡ s.errors)
        × (S.get (target sc found n) h.world.server
            ≡ settled P K S U sc found
                (groups P U o K S policy found)
                (declared P U o found)
                policy
                n
                (S.get (target sc found n) s.world.server))
  event-settles sc config found k namespace name n s has split shown O quiet =
      let h : Run P K S C o U policy none get sc = record { world = s.world; errors = s.errors } in
      let r = handler P K C o U none get sc found s.world in
      let once =
        process_key-found P C (World P K U) sc (get sc) (handler P K C o U none get sc) k namespace
          name found h split shown in
      let (fine, done) = handle-declared P U o K S policy sc found s.world n O quiet in
      let same = handler-declared sc found s.world in
      let (errors, world) =
        ran-fine P K S C o U policy none get sc k h r (ap (λ x. x.0) same ∙ fine) in
      (
        event-queued P K S C o U policy none get sc config k s.queues has,
        ap (λ x. x.errors) once ∙ errors,
        ap (λ x. S.get (target sc found n) x.world.server) once
            ∙ ap (λ w. S.get (target sc found n) w.server) world
            ∙ ap (λ x. S.get (target sc found n) x.1.server) same
            ∙ done,
      )
