-- ===== src/Controller/System/Grants.antt =====
-- Where the objects on the API server come from, and who is entitled to them, however the
-- controller's goroutines take turns.
use mathlib.Core.List.{Mem}
use mathlib.Core.Logic.{◌∨₁◌}
use rbacsync.Prelude.{String, ◌≡◌, ◌⊎◌, inl, inr, Option, some, ◌∷◌}
use rbacsync.Api.{Subject, Config}
use rbacsync.Errors.{ErrorPackage, Result, ok}
use rbacsync.Groups.{Grouper}
use rbacsync.Groups.Subjects.{MapOrder, IsOrder}
use rbacsync.Kube.{Kube, Scope, namespaced, cluster, BoundRole}
use rbacsync.Kube.Server.{Server, Key}
use rbacsync.Controller.Effects.{World}
use rbacsync.Controller.Resolve.{resolve_groups}
use rbacsync.Controller.Resolve.Laws.{subjects_in}
use rbacsync.Controller.Resolve.Entitled.{Names, resolve_groups-Mem}
use rbacsync.Controller.Cleanup.{handle_config, handle_cluster_config}
use rbacsync.Controller.Objects.Granted.{Granted, handle-granted}
use rbacsync.Controller.Queue.{Keys}
use rbacsync.Controller.Queue.Worlds.{process_key-holds}
use rbacsync.Controller.System.{
  System, Step, on_event, on_poll, on_key, Reaches, stop, then_step, handler,
}

module _ (P : ErrorPackage) (K : Kube P) (S : Server P K) (C : Keys P) (o : MapOrder) (U : Type 0)
    (grouper : Option (Grouper P U))
    (get : Scope → String → String → World P K U → Result P.Error Config) where
  -- The object stands for a binding of a config that the lister returned, and each of its subjects
  -- is in a membership of that config for the binding's group, or is named by the controller's
  -- grouper.
  pub record Origin (k : Key) (object : BoundRole K.OwnerReference) : Type 0 where
    pub scope : Scope
    pub namespace : String
    pub name : String
    pub world : World P K U
    pub config : Config
    pub found : get scope namespace name world ≡ ok config
    pub granted :
        Granted P K S U scope config
          (resolve_groups o P U grouper config.spec.memberships)
          config.spec.bindings
          k
          object
    pub entitled :
        (t : Subject)
        → Mem t (granted.first ∷ granted.others)
        → Mem t (subjects_in granted.binding.group config.spec.memberships)
          ∨₁ Names P U grouper granted.binding.group granted.outside t

  -- What is under the key in the second world was there in the first, or has an origin.
  abbrev Accounted : Key → BoundRole K.OwnerReference → World P K U → World P K U → Type 0
  Accounted k object w v =
      S.get k v.server ≡ some object → (S.get k w.server ≡ some object) ⊎ Origin k object

  module _ (O : IsOrder o) (k : Key) (object : BoundRole K.OwnerReference) where
    granted-Origin :
        (sc : Scope) (namespace name : String) (config : Config) (w : World P K U)
        → get sc namespace name w ≡ ok config
        → Granted P K S U sc config
            (resolve_groups o P U grouper config.spec.memberships)
            config.spec.bindings
            k
            object
        → Origin k object
    granted-Origin sc namespace name config w found g = record {
      scope = sc;
      namespace = namespace;
      name = name;
      world = w;
      config = config;
      found = found;
      granted = g;
      entitled = λ t m.
          resolve_groups-Mem P U o O grouper config.spec.memberships g.binding.group g.outside
            (g.first ∷ g.others) t g.answered m;
    }

    handler-Accounted :
        (sc : Scope) (namespace name : String) (config : Config) (w : World P K U)
        → get sc namespace name w ≡ ok config
        → Accounted k object w (handler P K C o U grouper get sc config w).1
    unfolding handle_config handle_cluster_config
    handler-Accounted namespaced namespace name config w found there =
        elim (handle-granted P K S U namespaced config
          (resolve_groups o P U grouper config.spec.memberships) w k object there) [
            | inl old ↦ inl old
            | inr new ↦ inr (granted-Origin namespaced namespace name config w found new)
          ]
    handler-Accounted cluster namespace name config w found there =
        elim (handle-granted P K S U cluster config
          (resolve_groups o P U grouper config.spec.memberships) w k object there) [
            | inl old ↦ inl old
            | inr new ↦ inr (granted-Origin cluster namespace name config w found new)
          ]

  step-Accounted :
      IsOrder o
      → (k : Key) (object : BoundRole K.OwnerReference) {s t : System P K C o U grouper get}
      → Step P K C o U grouper get s t
      → Accounted k object s.world t.world
  step-Accounted O k object (on_event e) = λ there. inl there
  step-Accounted O k object (on_poll sc configs failure) = λ there. inl there
  step-Accounted O k object {s = s} (on_key sc key queued) =
      process_key-holds P C (World P K U) sc (get sc) (handler P K C o U grouper get sc)
        (Accounted k object s.world) key _ (λ there. inl there)
        (λ namespace name config found.
          handler-Accounted O k object sc namespace name config s.world found)

  -- However events, polls and workers take turns, if Go walks through each entry of a map once: every
  -- object that is there in a state that the controller reaches was there at the start, unchanged; or
  -- it is what a valid binding of a config that the lister returned stands for, as the server stores
  -- it, under that binding's name, with one member at least. Each of its members is then a subject of
  -- that config's memberships of the binding's group, or one that the controller's grouper named for
  -- the group when it was asked.
  pub Reaches-Origin :
      (k : Key) (object : BoundRole K.OwnerReference) {s t : System P K C o U grouper get}
      → IsOrder o
      → Reaches P K C o U grouper get s t
      → S.get k t.world.server ≡ some object
      → (S.get k s.world.server ≡ some object) ⊎ Origin k object
  Reaches-Origin k object O stop there = inl there
  Reaches-Origin k object O (then_step before step) there =
      elim (step-Accounted O k object step there) [
        | inl old ↦ Reaches-Origin k object O before old
        | inr new ↦ inr new
      ]
