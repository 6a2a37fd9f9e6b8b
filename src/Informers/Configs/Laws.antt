-- ===== src/Informers/Configs/Laws.antt =====
-- Which informers a factory hands out for the configs, and what they ask the API server for.
use rbacsync.Prelude.{
  String, string_eq, ◌≡◌, refl, sym, ap, subst, true, false, Option, none, some, List, [], ◌∷◌,
}
use rbacsync.Prelude.Dict.{lookup}
use rbacsync.Api.{Config}
use rbacsync.Errors.{ErrorPackage}
use rbacsync.Kube.{Scope, namespaced, cluster}
use rbacsync.Integers.{ℤ}
use rbacsync.Clients.{
  MetaOptions, ListOptions, Rest, Step, Params, Request, with_params, with_timeout, list_params,
  timeout_of,
}
use rbacsync.Clients.RbacSyncConfigs
use rbacsync.Clients.ClusterRbacSyncConfigs
use rbacsync.Clients.Operations.{Call, list_call, watch_call, request_operation, recorder}
use rbacsync.Clients.Requests.{meaning}
use rbacsync.Clients.Fakes.{GroupVersionResource}
use rbacsync.Clients.Fakes
use rbacsync.Informers.{informer_for, resync_period}
use rbacsync.Informers.Laws.{informer_for-informer_for}
use rbacsync.Informers.Configs.{
  SharedIndexInformer, Factory, Tweak, tweaked, new_filtered_rbac_sync_config_informer,
  new_filtered_cluster_rbac_sync_config_informer, informer, cluster_informer, GenericInformer,
  default_informer, cluster_default_informer, is_resource, generic, for_resource,
}

module _ {M : MetaOptions} where
  -- What the calls of VersionedParams and Timeout in a chain are given.
  unfoldable pub params_in : List (Step M) → List (Params M)
  params_in [] = []
  params_in (with_params p ∷ rest) = p ∷ params_in rest
  params_in (step ∷ rest) = params_in rest

  unfoldable pub timeouts_in : List (Step M) → List ℤ
  timeouts_in [] = []
  timeouts_in (with_timeout t ∷ rest) = t ∷ timeouts_in rest
  timeouts_in (step ∷ rest) = timeouts_in rest

module _ (P : ErrorPackage) (M : MetaOptions) (Duration : Type 0) where
  module _ (R : Rest M P) where
    -- The informer for a kind of config, and the factory after it was asked for.
    abbrev pub typed :
        Scope → Factory P M R Duration → SharedIndexInformer P M R Duration × Factory P M R Duration
    typed namespaced = informer P M R Duration
    typed cluster = cluster_informer P M R Duration

    abbrev pub resource_of : Scope → GroupVersionResource
    resource_of namespaced = Fakes.RbacSyncConfigs.configs_resource
    resource_of cluster = Fakes.ClusterRbacSyncConfigs.configs_resource

    abbrev generic_of : Scope → SharedIndexInformer P M R Duration → GenericInformer P M R Duration
    generic_of sc i = record {
      group = "rbacsync.getcruise.com";
      resource = (resource_of sc).resource;
      informer = i;
    }

    -- The function that makes the informer.
    abbrev made :
        Scope → Factory P M R Duration → Unit {0} → Duration → SharedIndexInformer P M R Duration
    made namespaced = default_informer P M R Duration
    made cluster = cluster_default_informer P M R Duration

    -- Once a factory was asked for the informer of a kind of config, ForResource finds the same
    -- informer under the resource of that kind, and makes none.
    typed-for_resource :
        (sc : Scope) (f : Factory P M R Duration)
        → let (i, g) = typed sc f in
          for_resource P M R Duration (resource_of sc) g ≡ some (generic_of sc i, g)
    unfolding for_resource is_resource generic informer cluster_informer string_eq
    typed-for_resource namespaced f =
        ap (λ r. some (generic P M R Duration (resource_of namespaced) r))
          (informer_for-informer_for (Unit {0}) (SharedIndexInformer P M R Duration) Duration
            (Tweak P M R Duration) "RBACSyncConfig" (default_informer P M R Duration f)
            (default_informer P M R Duration (informer P M R Duration f).1) f)
    typed-for_resource cluster f =
        ap (λ r. some (generic P M R Duration (resource_of cluster) r))
          (informer_for-informer_for (Unit {0}) (SharedIndexInformer P M R Duration) Duration
            (Tweak P M R Duration) "ClusterRBACSyncConfig"
            (cluster_default_informer P M R Duration f)
            (cluster_default_informer P M R Duration (cluster_informer P M R Duration f).1) f)

    informer_for-fresh :
        (type : String) (make : Unit {0} → Duration → SharedIndexInformer P M R Duration)
        (f : Factory P M R Duration)
        → lookup type f.informers ≡ none
        → (resync : Duration) × ((informer_for
              (Unit {0})
              (SharedIndexInformer P M R Duration)
              Duration
              (Tweak P M R Duration)
              type
              make
              f).0
            ≡ make tt resync)
    unfolding informer_for
    informer_for-fresh type make f fresh = (
      resync_period (Unit {0}) (SharedIndexInformer P M R Duration) Duration (Tweak P M R Duration)
          f type,
      rw (informer_for, fresh),
    )

  abbrev pub type_of : Scope → String
  type_of namespaced = "RBACSyncConfig"
  type_of cluster = "ClusterRBACSyncConfig"

  abbrev pub scope_of : String → Scope → Option String
  scope_of namespace namespaced = some namespace
  scope_of namespace cluster = none

  -- A request that performs a call with the options: they are its parameters, and its timeout is
  -- the one that they state.
  abbrev pub Performs : Option String → Call M → ListOptions M → Request M → Type 0
  Performs scope c options r =
      (request_operation r ≡ meaning P M scope c)
      × (params_in r.steps ≡ list_params options ∷ [])
      × (timeouts_in r.steps ≡ timeout_of options.timeout_seconds ∷ [])

  -- What an informer lists and watches, by the one request that it makes of a recorder for each. The
  -- options of a watch ask for one.
  abbrev pub Asks :
      (reply : Config)
      → Option String
      → ListOptions M
      → ListOptions M
      → SharedIndexInformer P M (recorder P M reply) Duration
      → Type 0
  Asks reply scope given options i =
      ((r : Request M) × (((i.list_watch.list given []).1 ≡ r ∷ [])
          × Performs scope (list_call options) options r))
      × ((r : Request M) × (((i.list_watch.watch given []).1 ≡ r ∷ [])
            × Performs scope (watch_call options) (record options { watch = true }) r))

  default-Asks :
      (reply : Config) (sc : Scope) (f : Factory P M (recorder P M reply) Duration)
      (resync : Duration) (given : ListOptions M)
      → (tweaked P M (recorder P M reply) Duration f.tweak_list_options given).watch ≡ false
      → Asks reply
          (scope_of f.namespace sc)
          given
          (tweaked P M (recorder P M reply) Duration f.tweak_list_options given)
          (made (recorder P M reply) sc f tt resync)
  unfolding request_operation params_in timeouts_in new_filtered_rbac_sync_config_informer
      new_filtered_cluster_rbac_sync_config_informer RbacSyncConfigs.list_configs
      RbacSyncConfigs.watch_configs ClusterRbacSyncConfigs.list_configs
      ClusterRbacSyncConfigs.watch_configs
  default-Asks reply namespaced f resync given plain =
      ((_, (refl, (rw plain, refl, refl))), (_, (refl, (refl, refl, refl))))
  default-Asks reply cluster f resync given plain =
      ((_, (refl, (rw plain, refl, refl))), (_, (refl, (refl, refl, refl))))

  fresh-Asks :
      (reply : Config) (sc : Scope) (f : Factory P M (recorder P M reply) Duration)
      (given : ListOptions M)
      → lookup (type_of sc) f.informers ≡ none
      → (tweaked P M (recorder P M reply) Duration f.tweak_list_options given).watch ≡ false
      → Asks reply
          (scope_of f.namespace sc)
          given
          (tweaked P M (recorder P M reply) Duration f.tweak_list_options given)
          (typed (recorder P M reply) sc f).0
  unfolding informer cluster_informer
  fresh-Asks reply namespaced f given fresh plain =
      let R = recorder P M reply in
      let options = tweaked P M R Duration f.tweak_list_options given in
      let (resync, new) = informer_for-fresh R "RBACSyncConfig" (made R namespaced f) f fresh in
      subst (Asks reply (some f.namespace) given options) (sym new)
        (default-Asks reply namespaced f resync given plain)
  fresh-Asks reply cluster f given fresh plain =
      let R = recorder P M reply in
      let options = tweaked P M R Duration f.tweak_list_options given in
      let (resync, new) = informer_for-fresh R "ClusterRBACSyncConfig" (made R cluster f) f fresh in
      subst (Asks reply none given options) (sym new)
        (default-Asks reply cluster f resync given plain)

  -- Take a factory that has no informer for a kind of config yet. The informer that it makes lists
  -- and watches the configs of that kind, those of the factory's namespace alone if they have one, by
  -- one request each, if the factory's tweak does not make a watch of a list. The parameters of the
  -- requests are the options as the tweak leaves them, where those of the watch also ask for one, and
  -- their timeout is the one of these options. And ForResource gives the same informer afterwards,
  -- and makes none.
  pub typed_lem :
      (reply : Config) (sc : Scope) (f : Factory P M (recorder P M reply) Duration)
      (given : ListOptions M)
      → lookup (type_of sc) f.informers ≡ none
      → (tweaked P M (recorder P M reply) Duration f.tweak_list_options given).watch ≡ false
      → let R = recorder P M reply in
        let (i, g) = typed R sc f in
        Asks reply
          (scope_of f.namespace sc)
          given
          (tweaked P M R Duration f.tweak_list_options given)
          i
        × (for_resource P M R Duration (resource_of R sc) g ≡ some (generic_of R sc i, g))
  typed_lem reply sc f given fresh plain =
      (fresh-Asks reply sc f given fresh plain, typed-for_resource (recorder P M reply) sc f)
