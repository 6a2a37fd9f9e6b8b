-- ===== src/Controller/Objects/Declared.antt =====
-- A controller without a grouper: the groups of a config are those that its memberships declare.
use rbacsync.Prelude.{String, string_eq, ◌≡◌, refl, Option, none, List, [], ◌∷◌}
use rbacsync.Api.{Subject, Config}
use rbacsync.Errors.{ErrorPackage, ok, err, err_not_found, text}
use rbacsync.Prelude.Dict.{lookup}
use rbacsync.Groups.{Grouper, Reply}
use rbacsync.Groups.Subjects.{MapOrder, IsOrder, normalize}
use rbacsync.Groups.GroupMap.{GroupMap, members}
use rbacsync.Kube.{Kube, Scope, namespaced, cluster}
use rbacsync.Kube.Server.{Server}
use rbacsync.Controller.Effects.{World}
use rbacsync.Controller.Resolve.{static_groups, resolve_groups}
use rbacsync.Controller.Resolve.Laws.{subjects_in, lookup-static_groups, entry_for}
use rbacsync.Controller.Bindings.Loop.{target}
use rbacsync.Controller.Cleanup.{handle, handle_config, handle_cluster_config}
use rbacsync.Controller.Objects.{bound}
use rbacsync.Controller.Objects.Policy.{Policy, Heeds}
use rbacsync.Controller.Objects.Shown.{IsCurrent}
use rbacsync.Controller.Objects.Settled.{settled, handle-settles}

module _ (P : ErrorPackage) (U : Type 0) (o : MapOrder) where
  -- What the declared subjects of a group stand for.
  abbrev declared_reply : String → List Subject → Reply P U
  declared_reply group [] =
      err (P.wrapf (P.sentinel err_not_found) "subjects in group %v" (text group ∷ []))
  declared_reply group (s ∷ subjects) = ok (normalize o (s ∷ subjects))

  -- The memberships of a group, all of them together.
  unfoldable pub declared : Config → String → Reply P U
  declared config group = declared_reply group (subjects_in group config.spec.memberships)

  members-declared :
      (gm : GroupMap) (group : String) (subjects : List Subject) (u : U)
      → lookup group gm ≡ entry_for o subjects
      → (members P U gm group u).0 ≡ declared_reply group subjects
  unfolding members
  members-declared gm group [] u h = rw h
  members-declared gm group (s ∷ subjects) u h = rw h

  resolve_groups-declared :
      IsOrder o
      → (config : Config) (group : String) (u : U)
      → (resolve_groups o P U none config.spec.memberships group u).0 ≡ declared config group
  unfolding resolve_groups declared
  resolve_groups-declared O config group u =
      members-declared (static_groups o config.spec.memberships) group _ u
        (lookup-static_groups o O config.spec.memberships group)

  module _ (K : Kube P) (S : Server P K) (policy : Policy P K) where
    -- The handler of a config of each kind, in a controller without a grouper.
    abbrev pub handle_declared : Scope → Config → World P K U → Option P.Error × World P K U
    handle_declared namespaced config = handle_config P K U o none config
    handle_declared cluster config = handle_cluster_config P K U o none config

    abbrev pub groups : Config → Grouper P U
    groups config = resolve_groups o P U none config.spec.memberships

    handle_declared_lem :
        (sc : Scope) (config : Config) (w : World P K U)
        → handle_declared sc config w ≡ handle P K U sc config (groups config) w
    unfolding handle_config handle_cluster_config
    handle_declared_lem namespaced config w = refl
    handle_declared_lem cluster config w = refl

    -- What the handler relies on of the API.
    pub record IsQuiet (sc : Scope) (config : Config) (w : World P K U) : Type 0 where
      pub heeds : Heeds P K S U sc config (groups config) policy
      pub current : IsCurrent P K S U sc config (bound P K S U sc config (groups config) w).1.server

    -- Without a grouper, and if the API server keeps to a policy and the lister is current after the
    -- loop over the bindings, handleConfig and handleClusterConfig return no error and settle every
    -- name by the config and the policy alone: a group's members are the normalized subjects of all
    -- of its memberships, in whatever order Go walks through its maps.
    pub handle-declared :
        (sc : Scope) (config : Config) (w : World P K U) (n : String)
        → IsOrder o
        → IsQuiet sc config w
        → ((handle_declared sc config w).0 ≡ none)
          × (S.get (target sc config n) (handle_declared sc config w).1.server
              ≡ settled P K S U sc config
                  (groups config)
                  (declared config)
                  policy
                  n
                  (S.get (target sc config n) w.server))
    handle-declared sc config w n O q = rw (handle_declared_lem sc config w) (
        handle-settles P K S U sc config (groups config) (declared config) policy w n (record {
          same = resolve_groups-declared O config;
          heeds = q.heeds;
          current = q.current;
        }))
