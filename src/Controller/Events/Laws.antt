-- ===== src/Controller/Events/Laws.antt =====
-- Which keys the events put into the queues.
use rbacsync.Prelude.{
  String, string_eq, ◌≡◌, refl, sym, ◌∙◌, ap, ◌==◌, Bool, true, false, List, [], ◌∷◌, ◌++◌,
  if◌then◌else◌,
}
use mathlib.Core.List.{append_assoc, append-nil}
use rbacsync.Errors.{ErrorPackage}
use rbacsync.Kube.{Scope, scope_eq, namespaced, cluster}
use rbacsync.Controller.Queue.{Keys, Queues}
use rbacsync.Controller.Queue.Laws.{queue_for, Added, key_list, enqueue-Added, update_func_lem}
use rbacsync.Controller.Events.{Event, added, updated, deleted, handle_event, deliver}

module _ (P : ErrorPackage) (C : Keys P) where
  -- The keys that an event announces, and the kind of config that it is about.
  abbrev about : Event → Scope
  about (added sc config) = sc
  about (updated sc old new) = sc
  about (deleted sc config) = sc

  abbrev keys_of : Event → List String
  keys_of (added sc config) = key_list P C sc config
  keys_of (updated sc old new) =
      if new.metadata.resource_version == old.metadata.resource_version
      then []
      else key_list P C sc new
  keys_of (deleted sc config) = []

  -- The keys for one kind of config, in the order of the events.
  unfoldable pub announced : Scope → List Event → List String
  announced sc [] = []
  announced sc (e ∷ events) =
      let rest = announced sc events in if about e == sc then keys_of e ++ rest else rest

  handle_event-Added :
      (e : Event) (q : Queues P) → Added P (about e) (keys_of e) q (handle_event P C e q)
  unfolding handle_event
  handle_event-Added (added sc config) q = enqueue-Added P C sc config q
  handle_event-Added (updated sc old new) q = update_func_lem P C sc old new q
  handle_event-Added (deleted namespaced config) q = (sym (append-nil q.queue), refl)
  handle_event-Added (deleted cluster config) q = (sym (append-nil q.clusterqueue), refl)

  queue_for-Added :
      (sc sc' : Scope) (keys : List String) (p q : Queues P)
      → Added P sc' keys p q
      → queue_for P sc q ≡ queue_for P sc p ++ (if sc' == sc then keys else [])
  unfolding scope_eq
  queue_for-Added namespaced namespaced keys p q (a, b) = a
  queue_for-Added cluster cluster keys p q (a, b) = a
  queue_for-Added namespaced cluster keys p q (a, b) = b ∙ sym (append-nil p.queue)
  queue_for-Added cluster namespaced keys p q (a, b) = b ∙ sym (append-nil p.clusterqueue)

  join :
      (b : Bool) (xs ys : List String) → (if b then xs else []) ++ ys ≡ (if b then xs ++ ys else ys)
  join true xs ys = refl
  join false xs ys = refl

  -- After any sequence of events each of the two queues has got the keys of exactly the configs of
  -- its kind that were added or changed, in the order of the events; deletions and the updates of a
  -- resync, which show the same version again, add nothing.
  pub deliver-announced :
      (sc : Scope) (events : List Event) (q : Queues P)
      → queue_for P sc (deliver P C events q) ≡ queue_for P sc q ++ announced sc events
  unfolding deliver announced
  deliver-announced sc [] q = sym (append-nil (queue_for P sc q))
  deliver-announced sc (e ∷ events) q =
      deliver-announced sc events (handle_event P C e q)
      ∙ ap (λ l. l ++ announced sc events)
          (queue_for-Added sc (about e) (keys_of e) q _ (handle_event-Added e q))
      ∙ append_assoc (queue_for P sc q) _ (announced sc events)
      ∙ ap (λ l. queue_for P sc q ++ l) (join (about e == sc) (keys_of e) (announced sc events))
