-- ===== src/Tests/InformerRuns.antt =====
-- The theorems on the informer factory, applied to a factory of two informers.
use mathlib.Core.List.{reverse, reverse_perm}
use mathlib.Core.List.Perm
use mathlib.Core.HLevel.{hedberg}
use rbacsync.Prelude.{String, string_eq, ◌==◌, true, refl, ◌≡◌, none, some, [], ◌∷◌}
use rbacsync.Prelude.Dict.{lookup, UniqueKeys}
use rbacsync.Informers.{SharedInformerFactory, is_started, start, wait_for_cache_sync}
use rbacsync.Informers.Sync.{lookup-wait_for_cache_sync}
use rbacsync.Informers.Laws.{start-start}

-- Informers and durations are texts here.
abbrev factory : SharedInformerFactory Unit String String Unit
factory = record {
  client = tt;
  namespace = "";
  tweak_list_options = none;
  default_resync = "30s";
  custom_resync = [];
  informers = ("RBACSyncConfig", "a") ∷ ("ClusterRBACSyncConfig", "b") ∷ [];
  started_informers = [];
  runs = [];
}

factory-UniqueKeys : UniqueKeys factory.informers
unfolding lookup string_eq
factory-UniqueKeys = (refl, (refl, tt))

start-start_example :
    start Unit String String Unit (λ d. d) (start Unit String String Unit reverse factory)
    ≡ start Unit String String Unit reverse factory
start-start_example =
    start-start Unit String String Unit reverse (λ d. d) factory reverse_perm (λ d. Perm.rfl)

-- A factory whose one informer was started.
abbrev running : SharedInformerFactory Unit String String Unit
running = record factory { started_informers = ("RBACSyncConfig", true) ∷ [] }

lookup-wait_for_cache_sync_example :
    lookup "RBACSyncConfig"
      (wait_for_cache_sync Unit String String Unit (λ i. i == "a") reverse (λ d. d) running)
    ≡ some true
unfolding is_started lookup string_eq
lookup-wait_for_cache_sync_example =
    lookup-wait_for_cache_sync Unit String String Unit (λ i. i == "a") (hedberg string_eq.dec)
      reverse (λ d. d) reverse_perm (λ d. Perm.rfl) running "RBACSyncConfig" factory-UniqueKeys
