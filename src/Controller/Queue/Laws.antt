-- ===== src/Controller/Queue/Laws.antt =====
-- How a config gets from an event or a poll to its handler.
use rbacsync.Prelude.{
  String, string_eq, ◌≡◌, refl, sym, ap, ◌∙◌, ◌==◌, inl, inr, Option, none, some, List, [], ◌∷◌,
  ◌++◌, Bool-cases, arith, if◌then◌else◌,
}
use mathlib.Core.List.{append_assoc, append-nil}
use rbacsync.Api.{Config}
use rbacsync.Errors.{ErrorPackage, Result, ok, err, text, Result-cases}
use rbacsync.Kube.{Scope, namespaced, cluster}
use rbacsync.Controller.Queue.{
  config_object, Keys, Queues, handle_error, add_rate_limited, dispatch, enqueue, update_func,
  enqueue_all, poll, Item, key, garbage, Call, got, ran_fn, forgot, finished, handled_error,
  unexpected, Work, did, run_fn, handle_item, work_one, work, Handled, complain, looked_for,
  handling_format, unknown_format, run_handler, find_config, process_key,
}

module _ (P : ErrorPackage) where
  -- The queue for a kind of config, and the queue for the other kind.
  abbrev pub queue_for : Scope → Queues P → List String
  queue_for namespaced q = q.queue
  queue_for cluster q = q.clusterqueue

  abbrev pub other_queue : Scope → Queues P → List String
  other_queue namespaced q = q.clusterqueue
  other_queue cluster q = q.queue

  -- The second state has the keys added to the queue for a kind of config, and no others.
  abbrev pub Added : Scope → List String → Queues P → Queues P → Type 0
  Added sc keys p q =
      (queue_for sc q ≡ queue_for sc p ++ keys) × (other_queue sc q ≡ other_queue sc p)

  Added-trans :
      (sc : Scope) (xs ys : List String) (p q r : Queues P)
      → Added sc xs p q
      → Added sc ys q r
      → Added sc (xs ++ ys) p r
  Added-trans sc xs ys p q r (a, b) (c, d) = (c ∙ rw a (append_assoc (queue_for sc p) xs ys), d ∙ b)

  Added-nil :
      (sc : Scope) (p q : Queues P)
      → q.queue ≡ p.queue
      → q.clusterqueue ≡ p.clusterqueue
      → Added sc [] p q
  Added-nil namespaced p q a b = (a ∙ sym (append-nil p.queue), b)
  Added-nil cluster p q a b = (b ∙ sym (append-nil p.clusterqueue), a)

  dispatch-Added :
      (C : Keys P) (sc : Scope) (config : Config) (k : String) (q : Queues P)
      → Added sc (k ∷ []) q (dispatch P C k (config_object sc config) q)
  unfolding dispatch add_rate_limited
  dispatch-Added C namespaced config k q = (refl, refl)
  dispatch-Added C cluster config k q = (refl, refl)

  module _ (C : Keys P) (sc : Scope) where
    -- The key of a config, or none if it has none.
    abbrev pub key_list : Config → List String
    key_list config = elim (C.meta_namespace_key (config_object sc config)) [
      | ok k ↦ k ∷ []
      | err e ↦ []
    ]

    unfoldable pub key_lists : List Config → List String
    key_lists [] = []
    key_lists (config ∷ configs) = key_list config ++ key_lists configs

    handle_error-Added : (e : P.Error) (q : Queues P) → Added sc [] q (handle_error P e q)
    unfolding handle_error
    handle_error-Added e q = Added-nil sc q _ refl refl

    pub enqueue-Added :
        (config : Config) (q : Queues P)
        → Added sc (key_list config) q (enqueue P C (config_object sc config) q)
    unfolding enqueue dispatch add_rate_limited handle_error
    enqueue-Added config q = elim (Result-cases (C.meta_namespace_key (config_object sc config))) [
      | inl (k, p) ↦ rw (p, enqueue, key_list) (dispatch-Added C sc config k q)
      | inr (e, p) ↦ rw (p, enqueue, key_list) (handle_error-Added e q)
    ]

    -- An update adds the key of the new config to the queue for its kind, and nothing to the other
    -- queue. A resync, which shows the same version again, adds no key at all.
    pub update_func_lem :
        (old new : Config) (q : Queues P)
        → Added sc
            (if new.metadata.resource_version == old.metadata.resource_version
              then []
              else key_list new)
            q
            (update_func P C sc old new q)
    unfolding update_func
    update_func_lem old new q =
        elim (Bool-cases (new.metadata.resource_version == old.metadata.resource_version)) [
          | inl same ↦ rw same (Added-nil sc q _ refl refl)
          | inr changed ↦ rw changed (enqueue-Added new q)
        ]

    enqueue_all-Added :
        (configs : List Config) (q : Queues P)
        → Added sc (key_lists configs) q (enqueue_all P C sc configs q)
    unfolding enqueue_all key_lists
    enqueue_all-Added [] q = Added-nil sc q _ refl refl
    enqueue_all-Added (config ∷ configs) q =
        Added-trans sc (key_list config) (key_lists configs) q _ _ (enqueue-Added config q)
          (enqueue_all-Added configs _)

    -- A poll adds the keys of all configs that the lister returns to the queue for their kind, in
    -- the order of the lister, also if the lister returns an error with them; it adds no others.
    pub poll_lem :
        (configs : List Config) (failure : Option P.Error) (q : Queues P)
        → Added sc (key_lists configs) q (poll P C sc configs failure q)
    unfolding poll
    poll_lem configs none q = enqueue_all-Added configs q
    poll_lem configs (some e) q =
        Added-trans sc [] (key_lists configs) q _ _ (handle_error-Added _ q)
          (enqueue_all-Added configs _)

module _ {W : Type 0} (fn : String → W → W) where
  -- The texts among the items, and the calls that an item asks for.
  unfoldable pub texts : List Item → List String
  texts [] = []
  texts (key k ∷ items) = k ∷ texts items
  texts (garbage ∷ items) = texts items

  unfoldable pub in_turn : List String → W → W
  in_turn [] w = w
  in_turn (k ∷ keys) w = in_turn keys (fn k w)

  -- The calls for an item, in their order.
  abbrev turn : Item → List Call
  turn (key k) = got (some (key k)) ∷ ran_fn k ∷ forgot (key k) ∷ finished (key k) ∷ []
  turn garbage =
      got (some garbage) ∷ forgot garbage ∷ handled_error unexpected garbage ∷ finished garbage ∷ []

  unfoldable pub settled : List Item → List Call
  settled [] = got none ∷ []
  settled (item ∷ items) = turn item ++ settled items

  calls_lem : (item : Item) (w : Work fn) → (work_one fn item w).calls ≡ w.calls ++ turn item
  unfolding work_one handle_item run_fn did
  calls_lem (key k) w = simp append_assoc
  calls_lem garbage w = simp append_assoc

  -- A worker runs its function once on every text, in the order of the queue, and on nothing else.
  -- It takes the items one after the other. Between taking an item and taking the next it runs the
  -- function on a text and then forgets it, or forgets garbage and then hands an error for it to
  -- HandleError; and last, after all that, the item is done. The worker ends when Get says that the
  -- queue has shut down.
  pub work_lem :
      (items : List Item) (w : Work fn)
      → (work fn items w
          ≡ record { world = in_turn (texts items) w.world; calls = w.calls ++ settled items })
  unfolding work work_one handle_item run_fn did texts in_turn settled
  work_lem [] w = refl
  work_lem (key k ∷ items) w =
      work_lem items _
      ∙ ap (λ c. record { world = in_turn (texts items) (fn k w.world); calls = c })
          (ap (λ c. c ++ settled items) (calls_lem (key k) w)
            ∙ append_assoc w.calls (turn (key k)) (settled items))
  work_lem (garbage ∷ items) w =
      work_lem items _
      ∙ ap (λ c. record { world = in_turn (texts items) w.world; calls = c })
          (ap (λ c. c ++ settled items) (calls_lem garbage w)
            ∙ append_assoc w.calls (turn garbage) (settled items))

module _ (P : ErrorPackage) (C : Keys P) (W : Type 0) (sc : Scope)
    (get : String → String → W → Result P.Error Config)
    (handler : Config → W → Option P.Error × W) where
  abbrev Run : Type 0
  Run = Handled P C W sc get handler

  -- What is left of a run, given what the handler returned.
  abbrev pub ran : String → Run → Option P.Error × W → Run
  ran k h (none, w) = record { world = w; errors = h.errors }
  ran k h (some e, w) = record {
    world = w;
    errors = h.errors ++ P.wrapf e (handling_format P C W sc get handler sc) (text k ∷ []) ∷ [];
  }

  pub process_key-found :
      (k namespace name : String) (config : Config) (h : Run)
      → C.split_meta_namespace_key k ≡ ok (namespace, name)
      → get (looked_for P C W sc get handler sc namespace) name h.world ≡ ok config
      → process_key P C W sc get handler k h ≡ ran k h (handler config h.world)
  unfolding process_key find_config run_handler complain
  process_key-found k namespace name config h split found =
      rw (split, find_config, found, run_handler) (ground arith)

  -- A config that the lister does not return is reported.
  pub process_key-missing :
      (k namespace name : String) (e : P.Error) (h : Run)
      → C.split_meta_namespace_key k ≡ ok (namespace, name)
      → get (looked_for P C W sc get handler sc namespace) name h.world ≡ err e
      → process_key P C W sc get handler k h ≡ record {
        world = h.world;
        errors = h.errors ++ P.wrapf e (unknown_format P C W sc get handler sc) (text k ∷ []) ∷ [];
      }
  unfolding process_key find_config complain
  process_key-missing k namespace name e h split lost = rw (split, find_config, lost) refl

  -- Take a config that has a key, which splits into a namespace and a name for which the lister
  -- returns a config. Then enqueueing the first adds the key to the queue for its kind and nothing
  -- to the other, and processing the key runs the handler once, on the config that the lister
  -- returns; it reports an error exactly if the handler returns one.
  pub enqueue-process_key :
      (config found : Config) (k namespace name : String) (q : Queues P) (h : Run)
      → C.meta_namespace_key (config_object sc config) ≡ ok k
      → C.split_meta_namespace_key k ≡ ok (namespace, name)
      → get (looked_for P C W sc get handler sc namespace) name h.world ≡ ok found
      → Added P sc (k ∷ []) q (enqueue P C (config_object sc config) q)
        × (process_key P C W sc get handler k h ≡ ran k h (handler found h.world))
  unfolding enqueue
  enqueue-process_key config found k namespace name q h has split lists = (
    rw (has, enqueue) (dispatch-Added P C sc config k q),
    process_key-found k namespace name found h split lists,
  )
