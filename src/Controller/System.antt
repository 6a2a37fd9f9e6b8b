-- ===== src/Controller/System.antt =====
-- The controller of pkg/controller/controller.go as its goroutines drive it, one call at a time: the
-- event handlers, the pollers, and the workers with the functions that Run hands to them.
pub mod Laws
pub mod Settles
pub mod Grants
pub mod Validity
use rbacsync.Prelude.{String, string_eq, ◌≡◌, true, Option, List, contains}
use rbacsync.Api.{Config}
use rbacsync.Errors.{ErrorPackage, Result}
use rbacsync.Groups.{Grouper}
use rbacsync.Groups.Subjects.{MapOrder}
use rbacsync.Kube.{Kube, Scope, namespaced, cluster}
use rbacsync.Controller.Effects.{World}
use rbacsync.Controller.Cleanup.{handle_config, handle_cluster_config}
use rbacsync.Controller.Queue.{Keys, Queues, poll, Handled, process_key}
use rbacsync.Controller.Queue.Laws.{queue_for}
use rbacsync.Controller.Events.{Event, handle_event}

module _ (P : ErrorPackage) (K : Kube P) (C : Keys P) (o : MapOrder) (U : Type 0)
    (grouper : Option (Grouper P U))
    (get : Scope → String → String → World P K U → Result P.Error Config) where
  pub record System : Type 0 where
    pub queues : Queues P
    pub world : World P K U
    pub errors : List P.Error

  abbrev pub handler : Scope → Config → World P K U → Option P.Error × World P K U
  handler namespaced = handle_config P K U o grouper
  handler cluster = handle_cluster_config P K U o grouper

  -- A key that a worker takes out of the queue for a kind of config.
  abbrev pub processed :
      (sc : Scope) → String → System → Handled P C (World P K U) sc (get sc) (handler sc)
  processed sc k s =
      process_key P C (World P K U) sc (get sc) (handler sc) k
        (record { world = s.world; errors = s.errors })

  -- One call; between the calls nobody else writes. The queues hand out any key that was put in, in
  -- any order and as often as they like.
  pub data Step : System → System → Type 0 where
    on_event : {s : System} (e : Event) → Step s (record s { queues = handle_event P C e s.queues })
    on_poll :
        {s : System} (sc : Scope) (configs : List Config) (failure : Option P.Error)
        → Step s (record s { queues = poll P C sc configs failure s.queues })
    on_key :
        {s : System} (sc : Scope) (k : String)
        → contains (queue_for P sc s.queues) k ≡ true
        → Step s (record s { world = (processed sc k s).world; errors = (processed sc k s).errors })

  pub data Reaches : System → System → Type 0 where
    stop : {s : System} → Reaches s s
    then_step : {r s t : System} → Reaches r s → Step s t → Reaches r t
