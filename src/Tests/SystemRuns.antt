-- ===== src/Tests/SystemRuns.antt =====
-- The theorems on sequences of events and of calls, at concrete data.
use rbacsync.Prelude.{
  String, string_eq, ◌≡◌, ◌⊎◌, refl, sym, subst, true, false, ◌≢◌, contains, arith, List, Option,
  none, some, [], ◌∷◌,
}
use rbacsync.Api.{Config, subject_eq}
use rbacsync.Errors.{Result, ok, err, is_not_found}
use rbacsync.Kube.{Kube, Scope, scope_eq, namespaced, cluster, BoundRole}
use rbacsync.Kube.Server.{Server, Key, same_key}
use rbacsync.Groups.Subjects.{normalize, normalize_uniq, add_all, sort_subjects}
use rbacsync.Groups.Subjects.Laws.{forward, forward-IsOrder}
use rbacsync.Groups.GroupMap.{members}
use rbacsync.Groups.Merged.{merge, merged_members}
use rbacsync.Prelude.Dict.{lookup, insert}
use rbacsync.Controller.Resolve.{resolve_groups, static_groups}
use rbacsync.Controller.Cleanup.{handle_config, handle, clean_up, build_child_selector}
use rbacsync.Controller.Queue.{process_key}
use rbacsync.Controller.System.Validity.{IsValid, Reaches-IsValid}
use rbacsync.Controller.System.Grants.{Origin, Reaches-Origin}
use rbacsync.Controller.Effects.{World}
use rbacsync.Controller.Objects.{selected, NotOwned}
use rbacsync.Controller.Bindings.{
  Object, namespace_of, bound_name, kind_is_valid, object_for, create_or_update, bind_one, bind_all,
}
use rbacsync.Controller.Events.{handle_event, added, updated, deleted, deliver}
use rbacsync.Controller.Bindings.Loop.{target, bound_names}
use rbacsync.Controller.Events.Laws.{announced, deliver-announced}
use rbacsync.Controller.System.{processed, System, Reaches, stop, then_step, on_event, on_key}
use rbacsync.Controller.System.Laws.{IsForeign, Reaches-foreign}
use rbacsync.Tests.QueueRuns.{keys, empty, changed}
use rbacsync.Tests.Samples.{
  Failure, Failure-discrete, other, failures, memory, memory_server, view, user, at, config_with,
  object_named, one_user,
}

abbrev config : Config
config = config_with (view "g" ∷ [])

-- A config is added, shown again, changed and deleted.
deliver-announced_example :
    (deliver failures keys
      (added namespaced config
        ∷ updated namespaced config config
        ∷ updated namespaced config changed
        ∷ deleted namespaced changed
        ∷ [])
      empty).queue
    ≡ "ns/c" ∷ "ns/c" ∷ []
unfolding announced string_eq scope_eq
deliver-announced_example =
    deliver-announced failures keys namespaced
      (added namespaced config
        ∷ updated namespaced config config
        ∷ updated namespaced config changed
        ∷ deleted namespaced changed
        ∷ [])
      empty

abbrev Plain : Kube failures
Plain = memory false []

abbrev plain : Server failures Plain
plain = memory_server false []

-- The lister knows the one config of the namespace ns.
abbrev get : Scope → String → String → World failures Plain Unit → Result Failure Config
get namespaced namespace name w = ok config
get cluster namespace name w = err (other "gone")

abbrev Machine : Type 0
Machine = System failures Plain keys forward Unit (some one_user) get

-- A machine with empty queues, whose server holds the given objects.
abbrev holding_all : (Key → Option (BoundRole String)) → Machine
holding_all find = record {
  queues = empty;
  world = record { server = find; upstream = tt; effects = [] };
  errors = [];
}

abbrev start : Machine
start = holding_all (λ k. some (object_named "x"))

-- The config's one binding stands for another name.
other_name :
    (n : String)
    → contains (bound_names namespaced config config.spec.bindings) n ≡ true
    → same_key (at "x") (target namespaced config n) ≡ false
unfolding bound_names
other_name n h = elim (string_eq.dec "x" n) [
  | no q ↦ ground arith
  | yes q ↦ absurd (
      subst (λ m. contains (bound_names namespaced config config.spec.bindings) m ≢ true) q
        (unfold bound_name kind_is_valid string_eq in λ p. cc) h)
]

-- The lister of the objects shows nothing.
listed_none :
    (c : Config) (s : Plain.State) (objects : List (Object failures Plain Unit namespaced))
    → selected failures Plain plain Unit namespaced c s ≡ ok objects
    → objects ≡ []
unfolding selected build_child_selector
listed_none c s objects h = ground arith

x-IsForeign : IsForeign failures Plain plain keys forward Unit (some one_user) get (at "x")
x-IsForeign namespaced namespace name w c found =
    let same : config ≡ c = cc in
    subst
      (λ d.
        ((n : String)
          → contains (bound_names namespaced d d.spec.bindings) n ≡ true
          → same_key (at "x") (target namespaced d n) ≡ false)
        × ((s : Plain.State) (objects : List (Object failures Plain Unit namespaced))
            → selected failures Plain plain Unit namespaced d s ≡ ok objects
            → NotOwned failures Plain plain Unit namespaced d
                (resolve_groups forward failures Unit (some one_user) d.spec.memberships) objects
                (at "x")))
      same
      (
        other_name,
        λ s objects h.
            subst
              (λ l.
                NotOwned failures Plain plain Unit namespaced config
                  (resolve_groups forward failures Unit (some one_user) config.spec.memberships) l
                  (at "x"))
              (sym (listed_none config s objects h)) tt,
      )
x-IsForeign cluster namespace name w c found = cc

-- The config is added, and a worker takes its key.
abbrev enqueued : Machine → Machine
enqueued s = record {
  queues = handle_event failures keys (added namespaced config) s.queues;
  world = s.world;
  errors = s.errors;
}

abbrev finished : Machine → Machine
finished s = record {
  queues = (enqueued s).queues;
  world =
      (processed failures Plain keys forward Unit (some one_user) get namespaced "ns/c"
        (enqueued s)).world;
  errors =
      (processed failures Plain keys forward Unit (some one_user) get namespaced "ns/c"
        (enqueued s)).errors;
}

holding-Reaches :
    (find : Key → Option (BoundRole String))
    → Reaches failures Plain keys forward Unit
        (some one_user)
        get
        (holding_all find)
        (finished (holding_all find))
unfolding handle_event string_eq
holding-Reaches find =
    then_step (then_step stop (on_event (added namespaced config))) (on_key namespaced "ns/c" refl)

Reaches-foreign_example : (finished start).world.server (at "x") ≡ some (object_named "x")
unfolding memory_server
Reaches-foreign_example =
    Reaches-foreign failures Plain plain keys forward Unit (some one_user) get (at "x") x-IsForeign
      (holding-Reaches (λ k. some (object_named "x")))

-- What the worker writes for the one binding of the config.
abbrev granted : BoundRole String
granted = object_for failures Plain Unit namespaced config (view "g") (user "ann" ∷ [])

abbrev own : Key
own = at "c-g-view"

Reaches-Origin_example :
    (start.world.server own ≡ some granted)
    ⊎ Origin failures Plain plain keys forward Unit (some one_user) get own granted
unfolding memory_server handle_event string_eq scope_eq process_key handle_config handle
    resolve_groups static_groups members merged_members merge bind_all bind_one kind_is_valid
    object_for bound_name namespace_of create_or_update clean_up build_child_selector normalize
    lookup insert is_not_found normalize_uniq add_all sort_subjects subject_eq Failure-discrete
Reaches-Origin_example =
    Reaches-Origin failures Plain plain keys forward Unit (some one_user) get own granted
      forward-IsOrder (holding-Reaches (λ k. some (object_named "x"))) refl

-- The server is empty at the start.
Reaches-IsValid_example : IsValid failures Plain plain own granted
unfolding memory_server handle_event string_eq scope_eq process_key handle_config handle
    resolve_groups static_groups members merged_members merge bind_all bind_one kind_is_valid
    object_for bound_name namespace_of create_or_update clean_up build_child_selector normalize
    lookup insert is_not_found normalize_uniq add_all sort_subjects subject_eq Failure-discrete
Reaches-IsValid_example =
    Reaches-IsValid failures Plain plain keys forward Unit (some one_user) get forward-IsOrder
      (λ k object there. cc) (holding-Reaches (λ k. none)) own granted refl
