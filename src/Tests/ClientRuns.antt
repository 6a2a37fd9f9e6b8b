-- ===== src/Tests/ClientRuns.antt =====
-- The theorems on the clients, at concrete data.
use mathlib.Core.List.{map}
use rbacsync.Prelude.{◌≡◌, ◌↔◌, refl, false, none, some, List, [], ◌∷◌}
use rbacsync.Api.{Config}
use rbacsync.Integers.{pos, negsuc, IsInt64}
use rbacsync.Clients.{MetaOptions, timeout_of}
use rbacsync.Clients.Operations.{
  Call, list_call, update_status_call, delete_call, Operation, lists, updates, deletes, nothing,
  written, ArePlain, IsPlain, request_operation, action_operation,
}
use rbacsync.Clients.Operations.{recorder}
use rbacsync.Clients.{ListOptions}
use rbacsync.Clients.Requests.{requests, actions, requests-actions}
use rbacsync.Kube.{namespaced}
use rbacsync.Prelude.Dict.{lookup}
use rbacsync.Informers.Configs.{Factory, SharedIndexInformer, for_resource}
use rbacsync.Informers.Configs.Laws.{typed, resource_of, Asks, typed_lem}
use rbacsync.Clients.Timeouts.{timeout_of-bounds}
use rbacsync.Tests.Samples.{failures, view, config_with}

abbrev no_options : MetaOptions
no_options = record {
  GetOptions = Unit;
  CreateOptions = Unit;
  UpdateOptions = Unit;
  DeleteOptions = Unit;
  PatchOptions = Unit;
  PatchType = Unit;
  OtherListOptions = Unit;
}

abbrev config : Config
config = config_with (view "g" ∷ [])

abbrev calls : List (Call no_options)
calls =
    list_call (record { timeout_seconds = some (pos 5); watch = false; other = tt })
    ∷ update_status_call config tt
    ∷ delete_call "c" tt
    ∷ []

abbrev expected : List (Operation no_options)
expected =
    record {
      kind = lists;
      namespace = some "team";
      resource = "rbacsyncconfigs";
      name = none;
      subresources = [];
      payload = nothing;
    }
    ∷ record {
      kind = updates;
      namespace = some "team";
      resource = "rbacsyncconfigs";
      name = some "c";
      subresources = "status" ∷ [];
      payload = written config;
    }
    ∷ record {
      kind = deletes;
      namespace = some "team";
      resource = "rbacsyncconfigs";
      name = some "c";
      subresources = [];
      payload = nothing;
    }
    ∷ []

calls-ArePlain : ArePlain calls
unfolding ArePlain IsPlain
calls-ArePlain = (refl, (tt, (tt, tt)))

requests-actions_example :
    (map request_operation (requests failures no_options config (some "team") calls) ≡ expected)
    × (map action_operation (actions failures no_options config (some "team") calls) ≡ expected)
requests-actions_example =
    requests-actions failures no_options config (some "team") calls calls-ArePlain

timeout_of-bounds_example :
    IsInt64 (timeout_of (some (negsuc 9223372036)))
    × ((timeout_of (some (negsuc 9223372036)) ≡ negsuc 9223372036999999999)
        ↔ IsInt64 (negsuc 9223372036999999999))
timeout_of-bounds_example = timeout_of-bounds (negsuc 9223372036)

abbrev plainly : ListOptions no_options
plainly = record { timeout_seconds = none; watch = false; other = tt }

abbrev in_half_a_minute : ListOptions no_options → ListOptions no_options
in_half_a_minute options = record options { timeout_seconds = some (pos 30) }

-- A factory for the configs of one namespace, with a tweak, which has made no informer yet.
abbrev factory : Factory failures no_options (recorder failures no_options config) Unit
factory = record {
  client = tt;
  namespace = "team";
  tweak_list_options = some in_half_a_minute;
  default_resync = tt;
  custom_resync = [];
  informers = [];
  started_informers = [];
  runs = [];
}

abbrev asked :
    SharedIndexInformer failures no_options (recorder failures no_options config) Unit
    × Factory failures no_options (recorder failures no_options config) Unit
asked = typed failures no_options Unit (recorder failures no_options config) namespaced factory

typed_lem_example :
    Asks failures no_options Unit config (some "team") plainly (in_half_a_minute plainly) asked.0
    × (for_resource failures no_options
          (recorder failures no_options config)
          Unit
          (resource_of failures no_options Unit (recorder failures no_options config) namespaced)
          asked.1
        ≡ some (
          record {
            group = "rbacsync.getcruise.com";
            resource = "rbacsyncconfigs";
            informer = asked.0;
          },
          asked.1,
        ))
unfolding lookup
typed_lem_example = typed_lem failures no_options Unit config namespaced factory plainly refl refl
