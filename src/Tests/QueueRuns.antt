-- ===== src/Tests/QueueRuns.antt =====
-- The theorems on the queues, applied to a config whose key is its namespace and its name.
use rbacsync.Prelude.{
  none, String, string_eq, ◌<>◌, ◌≡◌, refl, Option, some, List, [], ◌∷◌, ◌++◌, if◌then◌else◌, ◌==◌,
}
use rbacsync.Api.{RoleRef, Config}
use rbacsync.Errors.{Result, ok, err, err_not_found}
use rbacsync.Kube.{namespaced}
use rbacsync.Controller.Bindings.{bound_name}
use rbacsync.Controller.Bindings.Names.{bound_name-dash}
use rbacsync.Controller.Queue.{
  Obj, config_object, api_object, no_object, Keys, Queues, poll, key, garbage, Work, work, Handled,
  process_key,
}
use rbacsync.Controller.Queue.Laws.{Added, key_lists, texts, in_turn, settled, work_lem}
use rbacsync.Listers.{Indexer, list_configs}
use rbacsync.Listers.Laws.{listed, poll-list_configs, process_key-get_config}
use rbacsync.Tests.Samples.{Failure, wrapped, known, failures, other, config_with, view}

abbrev key_of : Obj → Result Failure String
key_of (config_object sc c) = ok (c.metadata.namespace <> ("/" <> c.metadata.name))
key_of (api_object m) = ok m.name
key_of no_object = err (other "object has no meta")

-- The one key that is asked for.
abbrev split_key : String → Result Failure (String × String)
split_key k = if k == "ns/c" then ok ("ns", "c") else err (other "unexpected key format")

abbrev pub keys : Keys failures
keys = record {
  meta_namespace_key = key_of;
  split_meta_namespace_key = split_key;
  stated_kind = λ c. "";
}

abbrev pub empty : Queues failures
empty = record { queue = []; clusterqueue = []; effects = []; errors = [] }

abbrev config : Config
config = config_with (view "g" ∷ [])

abbrev pub changed : Config
changed = record config { metadata = record config.metadata { resource_version = "2" } }

abbrev collects : String → List String → List String
collects k ks = ks ++ k ∷ []

abbrev idle : Work collects
idle = record { world = []; calls = [] }

work_lem_example :
    work collects (key "a" ∷ garbage ∷ key "b" ∷ []) idle
    ≡ record { world = "a" ∷ "b" ∷ []; calls = settled collects (key "a" ∷ garbage ∷ key "b" ∷ []) }
unfolding in_turn texts
work_lem_example = work_lem collects (key "a" ∷ garbage ∷ key "b" ∷ []) idle

abbrev finds : String → String → Unit {0} → Result Failure Config
finds namespace name w = ok changed

abbrev fails : Config → Unit {0} → Option Failure × Unit {0}
fails c w = (some (other "no"), w)

abbrev waiting : Handled failures keys Unit namespaced finds fails
waiting = record { world = tt; errors = [] }

abbrev role : String → String → RoleRef
role kind name = record { api_group = "rbac.authorization.k8s.io"; kind = kind; name = name }

bound_name-dash_example :
    bound_name config (record { group = "eng"; role_ref = role "Role" "ops-view" })
    ≡ bound_name config (record { group = "eng-ops"; role_ref = role "ClusterRole" "view" })
bound_name-dash_example =
    bound_name-dash config "eng" "ops" "view" "Role" "ClusterRole" "rbac.authorization.k8s.io"

-- An index of one config, or of none.
abbrev index_of : Option Config → Indexer failures
index_of held = record {
  Selector = Unit;
  list_all = λ s. (config ∷ [], some (other "cut off"));
  list_all_by_namespace = λ namespace s. ([], none);
  get_by_key = λ k. ok held;
  new_not_found = λ resource name. known err_not_found;
}

poll-list_configs_example : Added failures namespaced ("ns/c" ∷ []) empty (
    poll failures keys namespaced
      (list_configs failures (index_of none) tt).0
      (list_configs failures (index_of none) tt).1
      empty)
unfolding key_lists
poll-list_configs_example = poll-list_configs failures (index_of none) keys namespaced tt empty

abbrev empty_index : Unit {0} → Indexer failures
empty_index w = index_of none

abbrev ready :
    Handled failures keys Unit namespaced
      (listed failures keys Unit namespaced empty_index fails)
      fails
ready = record { world = tt; errors = [] }

process_key-get_config_example :
    process_key failures keys Unit namespaced
      (listed failures keys Unit namespaced empty_index fails)
      fails
      "ns/c"
      ready
    ≡ record {
      world = tt;
      errors = wrapped (known err_not_found) "unknown item %q in RBACSyncConfig queue" ∷ [];
    }
unfolding string_eq
process_key-get_config_example =
    process_key-get_config failures keys Unit namespaced empty_index fails "ns/c" "ns" "c" none
      ready refl refl
