-- ===== src/Clients/Fakes/Sets.antt =====
-- fake/clientset_generated.go of pkg/generated/clientset/versioned and fake/fake_rbacsync_client.go
-- below it: the set of the fakes, which keep their objects in one tracker of
-- k8s.io/client-go/testing.
use rbacsync.Prelude.{
  String, Bool, true, false, ◌≡◌, refl, ap, inl, inr, Option, Option-cases, none, some, List, [],
  ◌∷◌, ◌++◌, arith,
}
use rbacsync.Errors.{ErrorPackage, Result, ok, err}
use rbacsync.Clients.Connections.{OrPanic, returned, panicked}
use rbacsync.Clients.Fakes.{GroupVersionResource}

-- testing.ObjectTracker over the objects, and *rest.RESTClient.
pub record Testing (P : ErrorPackage) : Type 1 where
  pub Object : Type 0
  pub Tracker : Type 0
  pub Watch : Type 0
  pub RestClient : Type 0
  pub new_object_tracker : Tracker
  pub add : Object → Tracker → Option P.Error × Tracker
  pub watch : GroupVersionResource → String → Tracker → Result P.Error Watch × Tracker

module _ (P : ErrorPackage) (T : Testing P) where
  -- What the function for AddWatchReactor reads of an action.
  pub record WatchAction : Type 0 where
    pub resource : GroupVersionResource
    pub namespace : String

  -- Whether the action is handled, the watch, and the error.
  pub record Watched : Type 0 where
    pub handled : Bool
    pub ret : Option T.Watch
    pub failure : Option P.Error

  watched : Result P.Error T.Watch × T.Tracker → Watched × T.Tracker
  watched (err e, o) = (record { handled = false; ret = none; failure = some e }, o)
  watched (ok watch, o) = (record { handled = true; ret = some watch; failure = none }, o)

  unfoldable pub watch_reaction : WatchAction → T.Tracker → Watched × T.Tracker
  unfolding watched
  watch_reaction action o = watched (T.watch action.resource action.namespace o)

  -- What AddReactor and AddWatchReactor were given: ObjectReaction of the tracker for a verb and a
  -- resource, and a function for a resource.
  pub data Reactor : Type 0 where
    object_reaction : (verb resource : String) → Reactor
    watch_reactor : (resource : String) → (WatchAction → T.Tracker → Watched × T.Tracker) → Reactor

  -- testing.Fake
  pub record SharedFake : Type 0 where
    pub reactors : List Reactor

  -- fakediscovery.FakeDiscovery, FakeRBACSyncV1alpha and the fakes that it makes, each with a pointer
  -- to the one Fake of its set
  pub record FakeDiscovery : Type 0 where
    pub fake : SharedFake

  pub record FakeRbacSyncV1alpha : Type 0 where
    pub fake : SharedFake

  pub record FakeRbacSyncConfigs : Type 0 where
    pub client : FakeRbacSyncV1alpha
    pub ns : String

  pub record FakeClusterRbacSyncConfigs : Type 0 where
    pub client : FakeRbacSyncV1alpha

  unfoldable pub rbac_sync_configs : FakeRbacSyncV1alpha → String → FakeRbacSyncConfigs
  rbac_sync_configs c namespace = record { client = c; ns = namespace }

  unfoldable pub cluster_rbac_sync_configs : FakeRbacSyncV1alpha → FakeClusterRbacSyncConfigs
  cluster_rbac_sync_configs c = record { client = c }

  -- RESTClient: an interface that is not nil and holds a nil pointer
  unfoldable pub rest_client : FakeRbacSyncV1alpha → Option (Option T.RestClient)
  rest_client c = some none

  -- Clientset; its tracker is the state that each call is given
  pub record Clientset : Type 0 where
    pub fake : SharedFake
    pub discovery_client : FakeDiscovery

  unfoldable pub discovery : Clientset → FakeDiscovery
  discovery c = c.discovery_client

  unfoldable pub rbac_sync_v1alpha : Clientset → FakeRbacSyncV1alpha
  rbac_sync_v1alpha c = record { fake = c.fake }

  -- The loop that adds the objects, which panics on an error.
  unfoldable pub add_objects : List T.Object → T.Tracker → Option P.Error × T.Tracker
  add_objects [] o = (none, o)
  add_objects (obj ∷ objects) o =
      let (failure, o') = T.add obj o in
      let rest = add_objects objects o' in elim failure [ some e ↦ (some e, o') | none ↦ rest ]

  with_objects : Option P.Error × T.Tracker → OrPanic P.Error Clientset × T.Tracker
  unfolding watch_reaction
  with_objects (some e, o) = (panicked e, o)
  with_objects (none, o) =
      let fake : SharedFake = record {
        reactors = object_reaction "*" "*" ∷ watch_reactor "*" watch_reaction ∷ [];
      } in
      (returned (record { fake = fake; discovery_client = record { fake = fake } }), o)

  -- NewSimpleClientset
  unfoldable pub new_simple_clientset : List T.Object → OrPanic P.Error Clientset × T.Tracker
  unfolding add_objects with_objects
  new_simple_clientset objects = with_objects (add_objects objects T.new_object_tracker)

  -- The loop stops at the first object that the tracker refuses, with its error, and NewSimpleClientset
  -- panics with it.
  add_objects-failed :
      (front back : List T.Object) (x : T.Object) (o o' : T.Tracker) (e : P.Error)
      → add_objects front o ≡ (none, o')
      → (T.add x o').0 ≡ some e
      → (add_objects (front ++ x ∷ back) o).0 ≡ some e
  unfolding add_objects
  add_objects-failed [] back x o o' e fine fails =
      let same : o ≡ o' = ap (λ r. r.1) fine in rw (same, fails) refl
  add_objects-failed (y ∷ front) back x o o' e fine fails = elim (Option-cases (T.add y o).0) [
    | inr (d, early) ↦ absurd (ground arith)
    | inl added ↦ rw added (add_objects-failed front back x (T.add y o).1 o' e (ground arith) fails)
  ]

  new_simple_clientset-panicked :
      (front back : List T.Object) (x : T.Object) (o : T.Tracker) (e : P.Error)
      → add_objects front T.new_object_tracker ≡ (none, o)
      → (T.add x o).0 ≡ some e
      → (new_simple_clientset (front ++ x ∷ back)).0 ≡ panicked e
  unfolding new_simple_clientset with_objects
  new_simple_clientset-panicked front back x o e fine fails =
      rw (with_objects, add_objects-failed front back x T.new_object_tracker o e fine fails) refl
