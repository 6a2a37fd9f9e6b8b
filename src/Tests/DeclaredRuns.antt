-- ===== src/Tests/DeclaredRuns.antt =====
-- The theorems on configs that declare their groups, with a server and a lister that is up to date.
use rbacsync.Prelude.{string_eq, arith, ◌≡◌, refl, none, [], ◌∷◌}
use rbacsync.Api.{Config}
use rbacsync.Kube.{scope_eq, namespaced}
use rbacsync.Controller.Bindings.{namespace_of, bound_name, kind_is_valid, object_for, bind_all}
use rbacsync.Controller.Cleanup.{build_child_selector}
use rbacsync.Controller.Objects.Policy.{open_policy}
use rbacsync.Controller.Objects.{selected}
use rbacsync.Controller.Objects.Desired.{fate}
use rbacsync.Controller.Objects.Shown.{shows}
use rbacsync.Controller.Objects.Settled.{settle}
use rbacsync.Controller.Objects.Declared.{IsQuiet, handle_declared, handle-declared}
use rbacsync.Controller.Resolve.{resolve_groups, static_groups}
use rbacsync.Prelude.Dict.{lookup, insert}
use rbacsync.Groups.GroupMap.{members}
use rbacsync.Groups.Subjects.{normalize}
use rbacsync.Groups.Subjects.Laws.{forward, forward-IsOrder}
use rbacsync.Tests.Samples.{failures, live_server, user, at}
use rbacsync.Tests.SettledRuns.{config, Live, live, live-Heeds, start, both}

-- A config that declares the members of its group.
abbrev own_config : Config
own_config = record config {
  spec = record config.spec {
    memberships = record { group = "g"; subjects = user "ann" ∷ [] } ∷ [];
  };
}

own-IsQuiet :
    IsQuiet failures Unit forward Live live (open_policy failures Live) namespaced own_config start
unfolding live_server string_eq scope_eq bind_all selected build_child_selector shows namespace_of
    object_for bound_name resolve_groups static_groups lookup insert members normalize
own-IsQuiet = record {
  heeds = live-Heeds own_config _;
  current = record { objects = both; listed = refl; shown = λ n. ground arith };
}

handle-declared_example :
    ((handle_declared failures Unit forward Live live
        (open_policy failures Live)
        namespaced
        own_config
        start).0
      ≡ none)
    × ((handle_declared failures Unit forward Live live
            (open_policy failures Live)
            namespaced
            own_config
            start).1.server
          (at "c-old-view")
        ≡ none)
unfolding live_server string_eq scope_eq fate kind_is_valid settle namespace_of bound_name
handle-declared_example =
    handle-declared failures Unit forward Live live (open_policy failures Live) namespaced
      own_config start "c-old-view" forward-IsOrder own-IsQuiet
