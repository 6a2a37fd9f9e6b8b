-- ===== src/Tests/EventRuns.antt =====
-- From an event to the objects, at concrete data.
use rbacsync.Prelude.{String, string_eq, ◌≡◌, refl, true, none, some, [], ◌∷◌, arith, contains}
use rbacsync.Prelude.Dict.{lookup, insert}
use rbacsync.Api.{Config, subject_eq}
use rbacsync.Errors.{Result, ok, is_not_found}
use rbacsync.Kube.{Scope, scope_eq, namespaced}
use rbacsync.Groups.GroupMap.{members}
use rbacsync.Groups.Merged.{merged_members, merge}
use rbacsync.Groups.Subjects.{normalize, normalize_uniq, add_all, sort_subjects}
use rbacsync.Groups.Subjects.Laws.{forward}
use rbacsync.Controller.Effects.{World}
use rbacsync.Controller.Resolve.{resolve_groups, static_groups}
use rbacsync.Controller.Bindings.{namespace_of, bound_name, kind_is_valid, object_for, bind_all}
use rbacsync.Controller.Cleanup.{build_child_selector}
use rbacsync.Controller.Objects.{selected}
use rbacsync.Controller.Objects.Policy.{open_policy}
use rbacsync.Controller.Objects.Desired.{fate}
use rbacsync.Controller.Objects.Shown.{shows}
use rbacsync.Controller.Objects.Settled.{IsCalm, settle}
use rbacsync.Controller.Events.{added, handle_event}
use rbacsync.Controller.System.{System, processed}
use rbacsync.Controller.System.Settles.{added-settles}
use rbacsync.Tests.QueueRuns.{keys, empty}
use rbacsync.Tests.SettledRuns.{config, Live, live, start, live-Heeds, both}
use rbacsync.Tests.Samples.{Failure, failures, Failure-discrete, live_server, user, one_user, at}

-- A lister with one config, which declares no group.
abbrev get_plain : Scope → String → String → World failures Live Unit → Result Failure Config
get_plain sc namespace name w = ok config

abbrev served : System failures Live keys forward Unit (some one_user) get_plain
served = record { queues = empty; world = start; errors = [] }

abbrev served_told : System failures Live keys forward Unit (some one_user) get_plain
served_told = record {
  queues = handle_event failures keys (added namespaced config) empty;
  world = start;
  errors = [];
}

served-IsCalm :
    IsCalm failures Live live Unit namespaced config
      (resolve_groups forward failures Unit (some one_user) config.spec.memberships)
      (λ group. ok (user "ann" ∷ []))
      (open_policy failures Live)
      start
unfolding live_server string_eq scope_eq bind_all selected build_child_selector shows namespace_of
    object_for bound_name resolve_groups static_groups lookup insert members merged_members merge
    normalize normalize_uniq add_all sort_subjects subject_eq is_not_found Failure-discrete
served-IsCalm = record {
  same = λ group u. refl;
  heeds = live-Heeds config _;
  current = record { objects = both; listed = refl; shown = λ n. ground arith };
}

added-settles_example :
    (contains served_told.queues.queue "ns/c" ≡ true)
    × ((processed failures Live keys forward Unit
          (some one_user)
          get_plain
          namespaced
          "ns/c"
          served_told).errors
        ≡ [])
    × ((processed failures Live keys forward Unit
            (some one_user)
            get_plain
            namespaced
            "ns/c"
            served_told).world.server
          (at "c-old-view")
        ≡ none)
unfolding live_server string_eq scope_eq fate kind_is_valid settle namespace_of bound_name
added-settles_example =
    added-settles failures Live live keys forward Unit (open_policy failures Live) (some one_user)
      get_plain namespaced config config "ns/c" "ns" "c" "c-old-view"
      (λ group. ok (user "ann" ∷ [])) served refl refl refl served-IsCalm
