-- ===== src/Controller/Events.antt =====
-- The event handlers that NewController of pkg/controller/controller.go registers with the two
-- informers of configs.
pub mod Laws
use rbacsync.Prelude.{List, [], ◌∷◌}
use rbacsync.Api.{Config}
use rbacsync.Errors.{ErrorPackage}
use rbacsync.Kube.{Scope}
use rbacsync.Controller.Queue.{config_object, Keys, Queues, enqueue, update_func}

-- What an informer of a kind of config tells its handlers: an old and a new config for an update.
pub data Event : Type 0 where
  added : Scope → Config → Event
  updated : Scope → Config → Config → Event
  deleted : Scope → Config → Event

module _ (P : ErrorPackage) (C : Keys P) where
  -- AddFunc and UpdateFunc; DeleteFunc is not set.
  unfoldable pub handle_event : Event → Queues P → Queues P
  unfolding enqueue update_func
  handle_event (added sc config) q = enqueue P C (config_object sc config) q
  handle_event (updated sc old new) q = update_func P C sc old new q
  handle_event (deleted sc config) q = q

  -- The handlers of both informers over the events in their order.
  unfoldable pub deliver : List Event → Queues P → Queues P
  unfolding handle_event
  deliver [] q = q
  deliver (e ∷ events) q = deliver events (handle_event e q)
