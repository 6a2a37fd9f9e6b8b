-- ===== src/Command/Laws.antt =====
-- What cmd/rbacsync/main.go sets up, and what it means for the controller.
use rbacsync.Prelude.{
  String, ◌≡◌, subst, ap, true, inl, inr, Bool-cases, Option-cases, none, some, [], arith,
}
use rbacsync.Api.{Config}
use rbacsync.Errors.{ErrorPackage, IsLawful, Result, ok, err}
use rbacsync.Errors.Kinds.{is_not_found-sentinel}
use rbacsync.Kube.{Kube, Scope}
use rbacsync.Groups.{Grouper, empty_grouper}
use rbacsync.Groups.Subjects.{MapOrder}
use rbacsync.Groups.Merged.Errors.{ErrorsClassified}
use rbacsync.Gsuite
use rbacsync.Gsuite.{Directory, GsuiteGrouper, new_grouper, gsuite_members}
use rbacsync.Gsuite.Laws.{gsuite_members-ErrorsClassified}
use rbacsync.Controller.Effects.{World}
use rbacsync.Controller.Resolve.{resolve_groups}
use rbacsync.Controller.Resolve.Merging.{resolve_groups-ErrorsClassified}
use rbacsync.Controller.Bindings.{bind_all}
use rbacsync.Controller.Bindings.Reports.{Reports, bind_all-Reports}
use rbacsync.Command.{
  Platform, in_cluster, built, resolve_config, GsuiteFlags, as_grouper, choose_grouper,
}

module _ (P : ErrorPackage) (F : Platform P) where
  -- Where a configuration may come from: the file, if it is there, and else the cluster.
  pub data Source (kubeconfig : String) (config : F.ClusterConfig) : Type 0 where
    from_file :
        F.stat kubeconfig ≡ none
        → F.build_config_from_flags "" kubeconfig ≡ ok config
        → Source kubeconfig config
    from_cluster :
        (e : P.Error)
        → F.stat kubeconfig ≡ some e
        → F.is_not_exist e ≡ true
        → F.in_cluster_config ≡ ok config
        → Source kubeconfig config

  -- A configuration that resolveConfig returns was built from the file, which is there, or is the
  -- cluster's own, and the file does not exist.
  pub resolve_config-ok :
      (kubeconfig : String) (config : F.ClusterConfig)
      → resolve_config P F kubeconfig ≡ ok config
      → Source kubeconfig config
  unfolding resolve_config in_cluster built
  resolve_config-ok kubeconfig config h = elim (Option-cases (F.stat kubeconfig)) [
    | inl there ↦ from_file there (ground arith)
    | inr (e, gone) ↦ from_cluster e gone (ground arith) (ground arith)
  ]

  -- If the file does not exist and the cluster's own configuration fails, then the returned error
  -- has the cause that the file does not exist; why the cluster's own fails is lost.
  pub resolve_config-lost :
      IsLawful P
      → (kubeconfig : String) (e e1 : P.Error) → F.stat kubeconfig ≡ some e
      → F.is_not_exist e ≡ true
      → F.in_cluster_config ≡ err e1
      → (x : P.Error) × (resolve_config P F kubeconfig ≡ err x) × (P.cause x ≡ P.cause e)
  unfolding resolve_config in_cluster
  resolve_config-lost L kubeconfig e e1 gone absent fails = (
    P.wrap e "could not resolve in cluster configuration",
    ground arith,
    L.cause-wrap e "could not resolve in cluster configuration",
  )

or_else : {E A : Type 0} → A → Result E A → A
or_else a (ok x) = x
or_else a (err e) = a

ok_injective : {E A : Type 0} {a b : A} → ◌≡◌ {A = Result E A} (ok a) (ok b) → a ≡ b
unfolding or_else
ok_injective {a = a} p = ap (or_else a) p

module _ (P : ErrorPackage) (L : IsLawful P) (D : Directory P) (o : MapOrder) where
  empty_grouper-ErrorsClassified : (U : Type 0) → ErrorsClassified P U (empty_grouper P U)
  unfolding empty_grouper
  empty_grouper-ErrorsClassified U group u e h = ground (arith, is_not_found-sentinel P L)

  as_grouper-ErrorsClassified :
      (made : Result P.Error (GsuiteGrouper P D)) (grouper : Grouper P (Gsuite.World P D))
      → as_grouper P D o made ≡ ok grouper
      → ErrorsClassified P (Gsuite.World P D) grouper
  unfolding as_grouper
  as_grouper-ErrorsClassified (err e) grouper h = cc
  as_grouper-ErrorsClassified (ok g) grouper h =
      subst (ErrorsClassified P (Gsuite.World P D)) (ok_injective h)
        (gsuite_members-ErrorsClassified P D L o g)

  choose_grouper-ErrorsClassified :
      (flags : GsuiteFlags) (w : D.Outside) (grouper : Grouper P (Gsuite.World P D))
      → (choose_grouper P D o flags w).0 ≡ ok grouper
      → ErrorsClassified P (Gsuite.World P D) grouper
  unfolding choose_grouper
  choose_grouper-ErrorsClassified flags w grouper h =
      let (made, w') =
        new_grouper P D flags.credentials_path flags.delegator flags.pattern flags.timeout w in
      elim (Bool-cases flags.enabled) [
        | inl on ↦ as_grouper-ErrorsClassified made grouper (rw on at h)
        | inr off ↦
            subst (ErrorsClassified P (Gsuite.World P D)) (ok_injective (rw off at h))
              (empty_grouper-ErrorsClassified (Gsuite.World P D))
      ]

  -- Whatever the flags are: with the grouper that main sets up, a handler of either kind reports on
  -- every binding of a config by one event, which one gauge counts under its reason.
  pub choose_grouper-Reports :
      (K : Kube P) (sc : Scope) (config : Config) (flags : GsuiteFlags) (w : D.Outside)
      (grouper : Grouper P (Gsuite.World P D)) (v : World P K (Gsuite.World P D))
      → (choose_grouper P D o flags w).0 ≡ ok grouper
      → let gm = resolve_groups o P (Gsuite.World P D) (some grouper) config.spec.memberships in
        Reports P K
          (Gsuite.World P D)
          sc
          config
          gm
          config.spec.bindings
          v
          (bind_all P K (Gsuite.World P D) sc config gm config.spec.bindings [] v).1
  choose_grouper-Reports K sc config flags w grouper v h =
      bind_all-Reports P K (Gsuite.World P D) sc config _
        (resolve_groups-ErrorsClassified o P L (Gsuite.World P D) grouper config.spec.memberships
          (choose_grouper-ErrorsClassified flags w grouper h)).0
        config.spec.bindings [] v
