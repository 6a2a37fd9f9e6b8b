-- ===== src/Clients/Requests.antt =====
-- The clients and their fakes ask the API server for the same operations.
use rbacsync.Prelude.{◌≡◌, refl, ap, ◌∙◌, String, Option, none, some, List, [], ◌∷◌}
use mathlib.Core.List.{map}
use native.Mathlib.Omega.{arith}
use rbacsync.Api.{Config}
use rbacsync.Errors.{ErrorPackage}
use rbacsync.Clients.{MetaOptions, Request, Rest}
use rbacsync.Clients.Operations.{
  Kind, Payload, Call, get_call, list_call, watch_call, create_call, update_call,
  update_status_call, delete_call, delete_collection_call, patch_call, Operation, gets, lists,
  watches, creates, updates, deletes, deletes_all, patches, nothing, written, patched, IsPlain,
  ArePlain, request_operation, action_operation, recorder, fake_recorder,
}
use rbacsync.Clients.RbacSyncConfigs
use rbacsync.Clients.ClusterRbacSyncConfigs
use rbacsync.Clients.Fakes
use rbacsync.Clients.Fakes.{Fake, Action}

module _ (P : ErrorPackage) (M : MetaOptions) where
  -- The state after a call of a client: of RBACSyncConfigs in a namespace, or else of
  -- ClusterRBACSyncConfigs.
  unfoldable pub ask : (R : Rest M P) → Option String → Call M → R.State → R.State
  unfolding RbacSyncConfigs.get_config RbacSyncConfigs.list_configs RbacSyncConfigs.watch_configs
      RbacSyncConfigs.create_config RbacSyncConfigs.update_config RbacSyncConfigs.update_status
      RbacSyncConfigs.delete_config RbacSyncConfigs.delete_collection RbacSyncConfigs.patch_config
      ClusterRbacSyncConfigs.get_config ClusterRbacSyncConfigs.list_configs
      ClusterRbacSyncConfigs.watch_configs ClusterRbacSyncConfigs.create_config
      ClusterRbacSyncConfigs.update_config ClusterRbacSyncConfigs.update_status
      ClusterRbacSyncConfigs.delete_config ClusterRbacSyncConfigs.delete_collection
      ClusterRbacSyncConfigs.patch_config
  ask R (some ns) (get_call n opts) s = (RbacSyncConfigs.get_config P M R ns n opts s).1
  ask R (some ns) (list_call opts) s = (RbacSyncConfigs.list_configs P M R ns opts s).1
  ask R (some ns) (watch_call opts) s = (RbacSyncConfigs.watch_configs P M R ns opts s).1
  ask R (some ns) (create_call c opts) s = (RbacSyncConfigs.create_config P M R ns c opts s).1
  ask R (some ns) (update_call c opts) s = (RbacSyncConfigs.update_config P M R ns c opts s).1
  ask R (some ns) (update_status_call c opts) s =
      (RbacSyncConfigs.update_status P M R ns c opts s).1
  ask R (some ns) (delete_call n opts) s = (RbacSyncConfigs.delete_config P M R ns n opts s).1
  ask R (some ns) (delete_collection_call opts lopts) s =
      (RbacSyncConfigs.delete_collection P M R ns opts lopts s).1
  ask R (some ns) (patch_call n pt bytes opts subs) s =
      (RbacSyncConfigs.patch_config P M R ns n pt bytes opts subs s).1
  ask R none (get_call n opts) s = (ClusterRbacSyncConfigs.get_config P M R n opts s).1
  ask R none (list_call opts) s = (ClusterRbacSyncConfigs.list_configs P M R opts s).1
  ask R none (watch_call opts) s = (ClusterRbacSyncConfigs.watch_configs P M R opts s).1
  ask R none (create_call c opts) s = (ClusterRbacSyncConfigs.create_config P M R c opts s).1
  ask R none (update_call c opts) s = (ClusterRbacSyncConfigs.update_config P M R c opts s).1
  ask R none (update_status_call c opts) s = (ClusterRbacSyncConfigs.update_status P M R c opts s).1
  ask R none (delete_call n opts) s = (ClusterRbacSyncConfigs.delete_config P M R n opts s).1
  ask R none (delete_collection_call opts lopts) s =
      (ClusterRbacSyncConfigs.delete_collection P M R opts lopts s).1
  ask R none (patch_call n pt bytes opts subs) s =
      (ClusterRbacSyncConfigs.patch_config P M R n pt bytes opts subs s).1

  unfoldable pub ask_fake : (F : Fake M P) → Option String → Call M → F.State → F.State
  unfolding Fakes.RbacSyncConfigs.get_config Fakes.RbacSyncConfigs.list_configs
      Fakes.RbacSyncConfigs.watch_configs Fakes.RbacSyncConfigs.create_config
      Fakes.RbacSyncConfigs.update_config Fakes.RbacSyncConfigs.update_status
      Fakes.RbacSyncConfigs.delete_config Fakes.RbacSyncConfigs.delete_collection
      Fakes.RbacSyncConfigs.patch_config Fakes.ClusterRbacSyncConfigs.get_config
      Fakes.ClusterRbacSyncConfigs.list_configs Fakes.ClusterRbacSyncConfigs.watch_configs
      Fakes.ClusterRbacSyncConfigs.create_config Fakes.ClusterRbacSyncConfigs.update_config
      Fakes.ClusterRbacSyncConfigs.update_status Fakes.ClusterRbacSyncConfigs.delete_config
      Fakes.ClusterRbacSyncConfigs.delete_collection Fakes.ClusterRbacSyncConfigs.patch_config
  ask_fake F (some ns) (get_call n opts) s = (Fakes.RbacSyncConfigs.get_config P M F ns n opts s).1
  ask_fake F (some ns) (list_call opts) s = (Fakes.RbacSyncConfigs.list_configs P M F ns opts s).1
  ask_fake F (some ns) (watch_call opts) s = (Fakes.RbacSyncConfigs.watch_configs P M F ns opts s).1
  ask_fake F (some ns) (create_call c opts) s =
      (Fakes.RbacSyncConfigs.create_config P M F ns c opts s).1
  ask_fake F (some ns) (update_call c opts) s =
      (Fakes.RbacSyncConfigs.update_config P M F ns c opts s).1
  ask_fake F (some ns) (update_status_call c opts) s =
      (Fakes.RbacSyncConfigs.update_status P M F ns c opts s).1
  ask_fake F (some ns) (delete_call n opts) s =
      (Fakes.RbacSyncConfigs.delete_config P M F ns n opts s).1
  ask_fake F (some ns) (delete_collection_call opts lopts) s =
      (Fakes.RbacSyncConfigs.delete_collection P M F ns opts lopts s).1
  ask_fake F (some ns) (patch_call n pt bytes opts subs) s =
      (Fakes.RbacSyncConfigs.patch_config P M F ns n pt bytes opts subs s).1
  ask_fake F none (get_call n opts) s = (Fakes.ClusterRbacSyncConfigs.get_config P M F n opts s).1
  ask_fake F none (list_call opts) s = (Fakes.ClusterRbacSyncConfigs.list_configs P M F opts s).1
  ask_fake F none (watch_call opts) s = (Fakes.ClusterRbacSyncConfigs.watch_configs P M F opts s).1
  ask_fake F none (create_call c opts) s =
      (Fakes.ClusterRbacSyncConfigs.create_config P M F c opts s).1
  ask_fake F none (update_call c opts) s =
      (Fakes.ClusterRbacSyncConfigs.update_config P M F c opts s).1
  ask_fake F none (update_status_call c opts) s =
      (Fakes.ClusterRbacSyncConfigs.update_status P M F c opts s).1
  ask_fake F none (delete_call n opts) s =
      (Fakes.ClusterRbacSyncConfigs.delete_config P M F n opts s).1
  ask_fake F none (delete_collection_call opts lopts) s =
      (Fakes.ClusterRbacSyncConfigs.delete_collection P M F opts lopts s).1
  ask_fake F none (patch_call n pt bytes opts subs) s =
      (Fakes.ClusterRbacSyncConfigs.patch_config P M F n pt bytes opts subs s).1

  -- The requests that a list of calls makes, the last one first, and the actions.
  unfoldable pub requests : Config → Option String → List (Call M) → List (Request M)
  unfolding ask
  requests reply scope [] = []
  requests reply scope (c ∷ rest) = ask (recorder P M reply) scope c (requests reply scope rest)

  unfoldable pub actions : Config → Option String → List (Call M) → List (Action M)
  unfolding ask_fake
  actions reply scope [] = []
  actions reply scope (c ∷ rest) =
      ask_fake (fake_recorder P M reply) scope c (actions reply scope rest)

  -- What a call is meant to ask for.
  abbrev meant : Kind → Option String → Option String → List String → Payload M → Operation M
  meant kind (some ns) n subs payload = record {
    kind = kind;
    namespace = some ns;
    resource = "rbacsyncconfigs";
    name = n;
    subresources = subs;
    payload = payload;
  }
  meant kind none n subs payload = record {
    kind = kind;
    namespace = none;
    resource = "clusterrbacsyncconfigs";
    name = n;
    subresources = subs;
    payload = payload;
  }

  abbrev pub meaning : Option String → Call M → Operation M
  meaning scope (get_call n opts) = meant gets scope (some n) [] nothing
  meaning scope (list_call opts) = meant lists scope none [] nothing
  meaning scope (watch_call opts) = meant watches scope none [] nothing
  meaning scope (create_call c opts) = meant creates scope none [] (written c)
  meaning scope (update_call c opts) = meant updates scope (some c.metadata.name) [] (written c)
  meaning scope (update_status_call c opts) =
      meant updates scope (some c.metadata.name) ("status" ∷ []) (written c)
  meaning scope (delete_call n opts) = meant deletes scope (some n) [] nothing
  meaning scope (delete_collection_call opts lopts) = meant deletes_all scope none [] nothing
  meaning scope (patch_call n pt bytes opts subs) =
      meant patches scope (some n) subs (patched pt bytes)

  -- One call adds one request, or one action, which asks for what the call means.
  request-meaning :
      (reply : Config) (scope : Option String) (c : Call M) (log : List (Request M))
      → IsPlain c
      → map request_operation (ask (recorder P M reply) scope c log)
        ≡ meaning scope c ∷ map request_operation log
  unfolding IsPlain request_operation ask
  request-meaning reply scope c log plain = ground arith

  action-meaning :
      (reply : Config) (scope : Option String) (c : Call M) (log : List (Action M))
      → map action_operation (ask_fake (fake_recorder P M reply) scope c log)
        ≡ meaning scope c ∷ map action_operation log
  unfolding action_operation ask_fake
  action-meaning reply scope c log = ground arith

  requests-meaning :
      (reply : Config) (scope : Option String) (calls : List (Call M))
      → ArePlain calls
      → map request_operation (requests reply scope calls) ≡ map (meaning scope) calls
  unfolding ArePlain requests
  requests-meaning reply scope [] plain = refl
  requests-meaning reply scope (c ∷ rest) (plain, plains) =
      request-meaning reply scope c (requests reply scope rest) plain
      ∙ ap (meaning scope c ∷◌) (requests-meaning reply scope rest plains)

  actions-meaning :
      (reply : Config) (scope : Option String) (calls : List (Call M))
      → map action_operation (actions reply scope calls) ≡ map (meaning scope) calls
  unfolding actions
  actions-meaning reply scope [] = refl
  actions-meaning reply scope (c ∷ rest) =
      action-meaning reply scope c (actions reply scope rest)
      ∙ ap (meaning scope c ∷◌) (actions-meaning reply scope rest)

  -- Whatever calls are made of a client, of configs of a namespace or of the cluster, its requests
  -- and the actions of its fake ask for the same operations in the same order: those that the calls
  -- mean, with the namespace and the resource of the client. The options of a list must not ask for
  -- a watch.
  pub requests-actions :
      (reply : Config) (scope : Option String) (calls : List (Call M))
      → ArePlain calls
      → (map request_operation (requests reply scope calls) ≡ map (meaning scope) calls)
        × (map action_operation (actions reply scope calls) ≡ map (meaning scope) calls)
  requests-actions reply scope calls plain =
      (requests-meaning reply scope calls plain, actions-meaning reply scope calls)
