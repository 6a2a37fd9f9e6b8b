-- ===== src/Listers/Laws.antt =====
-- Pollers and workers with the listers that they are given.
use mathlib.Core.List.{append_assoc, append-nil}
use rbacsync.Prelude.{String, ◌≡◌, sym, subst, ◌∙◌, ap, Option, none, some, List, [], ◌∷◌, ◌++◌}
use rbacsync.Api.{Config}
use rbacsync.Errors.{ErrorPackage, Result, ok, text}
use rbacsync.Kube.{Scope, namespaced, cluster}
use rbacsync.Controller.Queue.{Keys, Queues, poll, Handled, looked_for, unknown_format, process_key}
use rbacsync.Controller.Queue.Laws.{
  Added, key_lists, poll_lem, ran, process_key-found, process_key-missing,
}
use rbacsync.Listers.{
  Indexer, collect_configs, list_configs, index_key, resource, existing, get_config,
}

collect_configs_lem : (ms ret : List Config) → collect_configs ms ret ≡ ret ++ ms
unfolding collect_configs
collect_configs_lem [] ret = rw append-nil
collect_configs_lem (m ∷ ms) ret = collect_configs_lem ms _ ∙ rw append_assoc

module _ (P : ErrorPackage) (I : Indexer P) (C : Keys P) (sc : Scope) where
  -- A poll adds the keys of exactly the configs that the indexer lists to the queue for their kind,
  -- in its order, and it adds those that were listed before a failure; nothing is added to the other
  -- queue.
  pub poll-list_configs :
      (selector : I.Selector) (q : Queues P)
      → let (configs, failure) = list_configs P I selector in
        Added P sc (key_lists P C sc (I.list_all selector).0) q (poll P C sc configs failure q)
  unfolding list_configs
  poll-list_configs selector q =
      let (objects, failure) = I.list_all selector in
      subst (λ l. Added P sc (key_lists P C sc objects) q (poll P C sc l failure q))
        (sym (collect_configs_lem objects [])) (poll_lem P C sc objects failure q)

get_config-held :
    (P : ErrorPackage) (C : Keys P) (W : Type 0) (kind : Scope)
    (get : String → String → W → Result P.Error Config) (handler : Config → W → Option P.Error × W)
    (I : Indexer P) (sc : Scope) (namespace name : String) (held : Option Config)
    → I.get_by_key (index_key sc namespace name) ≡ ok held
    → get_config P I sc (looked_for P C W kind get handler sc namespace) name
      ≡ existing P I sc name (ok held)
unfolding get_config index_key
get_config-held P C W kind get handler I namespaced namespace name held h =
    ap (existing P I namespaced name) h
get_config-held P C W kind get handler I cluster namespace name held h =
    ap (existing P I cluster name) h

module _ (P : ErrorPackage) (C : Keys P) (W : Type 0) (sc : Scope) (index : W → Indexer P)
    (handler : Config → W → Option P.Error × W) where
  -- The lister of a worker reads the index at hand.
  abbrev pub listed : String → String → W → Result P.Error Config
  listed namespace name w = get_config P (index w) sc namespace name

  abbrev Run : Type 0
  Run = Handled P C W sc listed handler

  -- What is left of a run for what the index holds: a config that is gone is an error.
  abbrev pub outcome : (k name : String) → Run → Option Config → Run
  outcome k name h (some config) = ran P C W sc listed handler k h (handler config h.world)
  outcome k name h none = record {
    world = h.world;
    errors =
        h.errors
        ++ P.wrapf ((index h.world).new_not_found (resource sc) name)
            (unknown_format P C W sc listed handler sc) (text k ∷ [])
          ∷ [];
  }

  pub process_key-get_config :
      (k namespace name : String) (held : Option Config) (h : Run)
      → C.split_meta_namespace_key k ≡ ok (namespace, name)
      → (index h.world).get_by_key (index_key sc namespace name) ≡ ok held
      → process_key P C W sc listed handler k h ≡ outcome k name h held
  unfolding existing
  process_key-get_config k namespace name (some config) h split holds =
      process_key-found P C W sc listed handler k namespace name config h split (
        get_config-held P C W sc listed handler (index h.world) sc namespace name (some config)
          holds)
  process_key-get_config k namespace name none h split holds =
      process_key-missing P C W sc listed handler k namespace name _ h split
        (get_config-held P C W sc listed handler (index h.world) sc namespace name none holds)
