-- ===== src/Informers.antt =====
-- pkg/generated/informers/externalversions/factory.go: the factory that makes each informer once and
-- starts it once. A `reflect.Type` is its name; clients, informers and durations are any types. The
-- lock makes each operation one step, so each is one function here.
pub mod Laws
pub mod Sync
pub mod Configs
pub mod Interfaces
use rbacsync.Prelude.{
  String, string_eq, Bool, true, false, Option, none, some, List, [], ◌∷◌, ◌++◌, if◌then◌else◌,
}
use rbacsync.Prelude.Dict.{Dict, lookup, insert}

module _ (Client Informer Duration Tweak : Type 0) where
  -- sharedInformerFactory, with the informers for which `Run` was called, oldest first.
  pub record SharedInformerFactory : Type 0 where
    pub client : Client
    pub namespace : String
    pub tweak_list_options : Option Tweak
    pub default_resync : Duration
    pub custom_resync : Dict String Duration
    pub informers : Dict String Informer
    pub started_informers : Dict String Bool
    pub runs : List Informer

  abbrev Factory : Type 0
  Factory = SharedInformerFactory

  -- WithCustomResyncConfig, over the entries that `range` yields
  with_custom_resync_config : Dict String Duration → Factory → Factory
  with_custom_resync_config [] factory = factory
  with_custom_resync_config ((k, v) ∷ resync_config) factory =
      with_custom_resync_config resync_config
        (record factory { custom_resync = insert k v factory.custom_resync })

  with_tweak_list_options : Tweak → Factory → Factory
  with_tweak_list_options tweak factory = record factory { tweak_list_options = some tweak }

  with_namespace : String → Factory → Factory
  with_namespace namespace factory = record factory { namespace = namespace }

  apply_options : List (Factory → Factory) → Factory → Factory
  apply_options [] factory = factory
  apply_options (opt ∷ options) factory = apply_options options (opt factory)

  -- NewSharedInformerFactoryWithOptions
  unfoldable pub new_shared_informer_factory_with_options :
      Client → Duration → List (Factory → Factory) → Factory
  unfolding apply_options
  new_shared_informer_factory_with_options client default_resync options =
      apply_options options (record {
        client = client;
        namespace = "";
        tweak_list_options = none;
        default_resync = default_resync;
        custom_resync = [];
        informers = [];
        started_informers = [];
        runs = [];
      })

  -- NewFilteredSharedInformerFactory
  unfoldable pub new_filtered_shared_informer_factory : Client → Duration → String → Tweak → Factory
  unfolding new_shared_informer_factory_with_options with_namespace with_tweak_list_options
  new_filtered_shared_informer_factory client default_resync namespace tweak =
      new_shared_informer_factory_with_options client default_resync
        (with_namespace namespace ∷ with_tweak_list_options tweak ∷ [])

  -- `f.startedInformers[informerType]`
  unfoldable pub is_started : Factory → String → Bool
  is_started f type = elim (lookup type f.started_informers) [ none ↦ false | some b ↦ b ]

  start_one : String → Informer → Factory → Factory
  unfolding is_started
  start_one type informer f = if is_started f type then f else record f {
    runs = f.runs ++ informer ∷ [];
    started_informers = insert type true f.started_informers;
  }

  start_loop : Dict String Informer → Factory → Factory
  unfolding start_one
  start_loop [] f = f
  start_loop ((type, informer) ∷ informers) f = start_loop informers (start_one type informer f)

  -- Start, over the entries in the order that `range` yields
  unfoldable pub start : (Dict String Informer → Dict String Informer) → Factory → Factory
  unfolding start_loop
  start order f = start_loop (order f.informers) f

  resync_period : Factory → String → Duration
  resync_period f type = elim (lookup type f.custom_resync) [ none ↦ f.default_resync | some d ↦ d ]

  -- InformerFor
  unfoldable pub informer_for :
      String → (Client → Duration → Informer) → Factory → Informer × Factory
  unfolding resync_period
  informer_for type new_func f = elim (lookup type f.informers) [
    | some informer ↦ (informer, f)
    | none ↦
        let informer = new_func f.client (resync_period f type) in
        (informer, record f { informers = insert type informer f.informers })
  ]

  -- The first part of WaitForCacheSync, over the informers: those that are started.
  select_started : Dict String Informer → Factory → Dict String Informer → Dict String Informer
  unfolding is_started
  select_started [] f informers = informers
  select_started ((type, informer) ∷ es) f informers =
      select_started es f (if is_started f type then insert type informer informers else informers)

  module _ (synced : Informer → Bool) where
    -- The second part, with what cache.WaitForCacheSync returns for an informer.
    sync_loop : Dict String Informer → Dict String Bool → Dict String Bool
    sync_loop [] res = res
    sync_loop ((type, informer) ∷ es) res = sync_loop es (insert type (synced informer) res)

    -- WaitForCacheSync, over the entries of both maps in the orders that `range` yields
    unfoldable pub wait_for_cache_sync :
        (order last : Dict String Informer → Dict String Informer) → Factory → Dict String Bool
    unfolding sync_loop select_started
    wait_for_cache_sync order last f = sync_loop (last (select_started (order f.informers) f [])) []
