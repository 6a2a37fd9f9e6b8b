-- ===== src/Controller/Queue.antt =====
-- How configs reach the handlers in pkg/controller/controller.go: the event handlers and pollers
-- that put keys into the two queues, and the workers that take them out.
pub mod Laws
pub mod Worlds
use rbacsync.Prelude.{
  String, string_eq, ◌==◌, Option, none, some, List, [], ◌∷◌, ◌++◌, if◌then◌else◌,
}
use rbacsync.Api.{Config, RbacSyncConfig, ClusterRbacSyncConfig, ObjectMeta}
use rbacsync.Errors.{ErrorPackage, Result, ok, err, Arg, text}
use rbacsync.Kube.{Scope, namespaced, cluster}
use rbacsync.Controller.Effects.{
  Effect, event, inc, normal, config_enqueued, config_status, config_kind,
}

-- What an event handler is given: one of the two kinds of config, another object of the API, or a
-- value that is no object of the API at all.
pub data Obj : Type 0 where
  config_object : Scope → Config → Obj
  api_object : ObjectMeta → Obj
  no_object : Obj

-- The parts of k8s.io/client-go/tools/cache that this code calls, and the kind that an object's
-- own TypeMeta states.
pub record Keys (P : ErrorPackage) : Type 0 where
  pub meta_namespace_key : Obj → Result P.Error String
  pub split_meta_namespace_key : String → Result P.Error (String × String)
  pub stated_kind : Config → String

module _ (P : ErrorPackage) where
  -- The keys given to AddRateLimited of each queue, the effects, and the errors handed to
  -- runtimeutil.HandleError, each oldest first.
  pub record Queues : Type 0 where
    pub queue : List String
    pub clusterqueue : List String
    pub effects : List (Effect P.Error)
    pub errors : List P.Error

  handle_error : P.Error → Queues → Queues
  handle_error e q = record q { errors = q.errors ++ e ∷ [] }

  -- `AddRateLimited` on the queue for the kind of config.
  add_rate_limited : Scope → String → Queues → Queues
  add_rate_limited namespaced key q = record q { queue = q.queue ++ key ∷ [] }
  add_rate_limited cluster key q = record q { clusterqueue = q.clusterqueue ++ key ∷ [] }

  module _ (C : Keys P) where
    -- The end of enqueue: the queue by the kind of config, the gauge and the event.
    dispatch : String → Obj → Queues → Queues
    unfolding add_rate_limited
    dispatch key no_object q = q
    dispatch key (api_object m) q = q
    dispatch key (config_object sc config) q =
        let q' = add_rate_limited sc key q in
        record q' {
          effects =
              q'.effects
              ++ inc config_status (config_kind sc) config_enqueued
                ∷ event normal config_enqueued "%v %v enqueued"
                    (text (C.stated_kind config) ∷ text key ∷ [])
                ∷ [];
        }

    -- enqueue, which is AddFunc too
    unfoldable pub enqueue : Obj → Queues → Queues
    unfolding handle_error dispatch
    enqueue obj q = elim (C.meta_namespace_key obj) [
      | err e ↦ handle_error e q
      | ok key ↦ dispatch key obj q
    ]

    -- UpdateFunc: a periodic resync shows the same version again.
    unfoldable pub update_func : Scope → Config → Config → Queues → Queues
    unfolding enqueue
    update_func sc old new q =
        if new.metadata.resource_version == old.metadata.resource_version
        then q
        else enqueue (config_object sc new) q

    -- The loop of the pollers.
    unfoldable pub enqueue_all : Scope → List Config → Queues → Queues
    unfolding enqueue
    enqueue_all sc [] q = q
    enqueue_all sc (config ∷ configs) q =
        enqueue_all sc configs (enqueue (config_object sc config) q)

    abbrev list_failed : Scope → String
    list_failed namespaced = "failed listing RBACSyncConfigs in poller"
    list_failed cluster = "failed listing ClusterRBACSyncConfigs in poller"

    -- pollRBACSyncConfigs and pollClusterRBACSyncConfigs, from what the lister returns: an error
    -- does not end them.
    unfoldable pub poll : Scope → List Config → Option P.Error → Queues → Queues
    unfolding enqueue_all handle_error
    poll sc configs none q = enqueue_all sc configs q
    poll sc configs (some e) q =
        enqueue_all sc configs (handle_error (P.wrapf e (list_failed sc) []) q)

-- What a queue hands to a worker: a text, or anything else.
pub data Item : Type 0 where
  key : String → Item
  garbage : Item

-- What a worker does: `Get` of an item, or of none when the queue has shut down; its function on a
-- text; `Forget` and `Done` of an item; and runtimeutil.HandleError for an item that is no text,
-- with the format of the error.
pub data Call : Type 0 where
  got : Option Item → Call
  ran_fn : String → Call
  forgot finished : Item → Call
  handled_error : String → Item → Call

abbrev pub unexpected : String
unexpected = "unexpected object in workqueue %v of type %T: %#v"

module _ {W : Type 0} (fn : String → W → W) where
  -- The world in which `fn` runs, and what the worker did so far.
  pub record Work : Type 0 where
    pub world : W
    pub calls : List Call

  did : Call → Work → Work
  did c w = record w { calls = w.calls ++ c ∷ [] }

  -- `fn(key)`
  run_fn : String → Work → Work
  unfolding did
  run_fn k w = did (ran_fn k) (record w { world = fn k w.world })

  -- The function that makeWorker runs for an item, without the deferred Done.
  handle_item : Item → Work → Work
  unfolding did run_fn
  handle_item garbage w = did (handled_error unexpected garbage) (did (forgot garbage) w)
  handle_item (key k) w = did (forgot (key k)) (run_fn k w)

  -- One round of the loop for an item that Get returned; `Done` is deferred, so it comes last.
  work_one : Item → Work → Work
  unfolding did handle_item
  work_one item w = did (finished item) (handle_item item (did (got (some item)) w))

  -- The loop of makeWorker, over the items that Get returns until the queue has shut down.
  unfoldable pub work : List Item → Work → Work
  unfolding did work_one
  work [] w = did (got none) w
  work (item ∷ items) w = work items (work_one item w)

module _ (P : ErrorPackage) (C : Keys P) (W : Type 0) (sc : Scope)
    (get : String → String → W → Result P.Error Config)
    (handler : Config → W → Option P.Error × W) where
  -- The errors that a worker's function hands to runtimeutil.HandleError, with the handler's world.
  pub record Handled : Type 0 where
    pub world : W
    pub errors : List P.Error

  complain : P.Error → Handled → Handled
  complain e h = record h { errors = h.errors ++ e ∷ [] }

  abbrev pub unknown_format : Scope → String
  unknown_format namespaced = "unknown item %q in RBACSyncConfig queue"
  unknown_format cluster = "unknown item %q in ClusterRBACSyncConfig queue"

  abbrev handling_format : Scope → String
  handling_format namespaced = "error handling item %q in RBACSyncConfig queue"
  handling_format cluster = "error handling item %q in ClusterRBACSyncConfig queue"

  -- A cluster scoped config is looked for by its name alone.
  abbrev pub looked_for : Scope → String → String
  looked_for namespaced namespace = namespace
  looked_for cluster namespace = ""

  run_handler : String → Config → Handled → Handled
  unfolding complain
  run_handler k config h =
      let (failure, world) = handler config h.world in
      elim failure [
        | none ↦ record h { world = world }
        | some e ↦
            complain (P.wrapf e (handling_format sc) (text k ∷ [])) (record h { world = world })
      ]

  find_config : String → Result P.Error (String × String) → Handled → Handled
  unfolding run_handler
  find_config k (err e) h = complain e h
  find_config k (ok (namespace, name)) h = elim (get (looked_for sc namespace) name h.world) [
    | err e ↦ complain (P.wrapf e (unknown_format sc) (text k ∷ [])) h
    | ok config ↦ run_handler k config h
  ]

  -- The two functions that Run hands to makeWorker.
  unfoldable pub process_key : String → Handled → Handled
  unfolding find_config
  process_key k h = find_config k (C.split_meta_namespace_key k) h
