-- ===== src/Controller/Run.antt =====
-- Controller.Run in pkg/controller/controller.go: which goroutines it starts, and which queues it
-- shuts down.
use rbacsync.Prelude.{
  String, nat_eq, Bool, true, false, Option, none, some, List, [], ◌∷◌, if◌then◌else◌,
}
use rbacsync.Integers.{ℤ, is_positive}
use rbacsync.Kube.{Scope, scope_eq, namespaced, cluster}

-- time.Duration, in nanoseconds
abbrev pub Duration : Type 0
Duration = ℤ

-- A goroutine that repeats a worker of a queue, or a poller, until the stop channel is closed.
pub data Routine : Type 0 where
  worker : Scope → Routine
  poller : Scope → Routine

-- What Run started, the error that it returned, and the queues that it shut down.
pub record Ended : Type 0 where
  pub routines : List Routine
  pub failure : Option String
  pub shut_down : List Scope

-- The part of Run before it waits for the stop channel.
started : (synced : Bool) → Duration → Ended
started false poll_period = record {
  routines = [];
  failure = some "failed to sync informer cache";
  shut_down = [];
}
started true poll_period = record {
  routines =
      worker namespaced
      ∷ worker cluster
      ∷ (if is_positive poll_period then poller namespaced ∷ poller cluster ∷ [] else []);
  failure = none;
  shut_down = [];
}

-- Run, once the stop channel is closed; the shutdown of the queue is deferred.
unfoldable pub run : (synced : Bool) → Duration → Ended
unfolding started
run synced poll_period =
    let e = started synced poll_period in record e { shut_down = namespaced ∷ e.shut_down }
