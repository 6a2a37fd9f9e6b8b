-- ===== src/Command.antt =====
-- cmd/rbacsync/main.go: where the configuration of the cluster comes from, and which grouper the
-- controller gets.
pub mod Laws
pub mod Signals
pub mod Startup
use rbacsync.Prelude.{
  ℕ, String, string_eq, ◌==◌, Bool, true, false, not, Option, none, some, if◌then◌else◌,
}
use rbacsync.Integers.{ℤ}
use rbacsync.Errors.{ErrorPackage, Result, ok, err}
use rbacsync.Groups.{Grouper, empty_grouper}
use rbacsync.Groups.Subjects.{MapOrder}
use rbacsync.Gsuite.{Directory, World, GsuiteGrouper, new_grouper, gsuite_members}

-- os.Getenv of the two variables that are read.
pub record Environment : Type 0 where
  pub home : String
  pub user_profile : String

-- homeDir
unfoldable pub home_dir : Environment → String
home_dir env = if env.home == "" then env.user_profile else env.home

-- os.Stat and os.IsNotExist, rest.InClusterConfig and clientcmd.BuildConfigFromFlags
pub record Platform (P : ErrorPackage) : Type 1 where
  pub ClusterConfig : Type 0
  pub stat : String → Option P.Error
  pub is_not_exist : P.Error → Bool
  pub in_cluster_config : Result P.Error ClusterConfig
  pub build_config_from_flags : (master kubeconfig : String) → Result P.Error ClusterConfig

module _ (P : ErrorPackage) (F : Platform P) where
  -- The branch of resolveConfig after a failed `os.Stat`.
  in_cluster : P.Error → Result P.Error F.ClusterConfig → Result P.Error F.ClusterConfig
  in_cluster e (ok config) = ok config
  in_cluster e (err e1) = err (P.wrap e "could not resolve in cluster configuration")

  unfoldable pub built : Result P.Error F.ClusterConfig → Result P.Error F.ClusterConfig
  built (ok config) = ok config
  built (err e) = err (P.wrap e "could not build kubeconfig")

  -- resolveConfig
  unfoldable pub resolve_config : String → Result P.Error F.ClusterConfig
  unfolding in_cluster built
  resolve_config kubeconfig = elim (F.stat kubeconfig) [
    | none ↦ built (F.build_config_from_flags "" kubeconfig)
    | some e ↦
        if not (F.is_not_exist e)
        then err (P.wrap e "unexpected failure stating kubeconfig")
        else in_cluster e F.in_cluster_config
  ]

-- dumpYAML, given yaml.Marshal and the Write of the standard output.
unfoldable pub dump_yaml :
    {E Object W : Type 0}
    → (Object → Result E String)
    → (String → W → Option E × W)
    → Object
    → W
    → Option E × W
dump_yaml marshal write object w = elim (marshal object) [
  | err e ↦ (some e, w)
  | ok bytes ↦ write bytes w
]

-- gsuiteFlags
pub record GsuiteFlags : Type 0 where
  pub enabled : Bool
  pub credentials_path : String
  pub delegator : String
  pub pattern : String
  pub timeout : ℤ

module _ (P : ErrorPackage) (D : Directory P) (o : MapOrder) where
  as_grouper : Result P.Error (GsuiteGrouper P D) → Result P.Error (Grouper P (World P D))
  as_grouper (ok g) = ok (gsuite_members P D o g)
  as_grouper (err e) = err e

  -- The grouper that main hands to the controller; an error ends the program.
  unfoldable pub choose_grouper :
      GsuiteFlags → D.Outside → Result P.Error (Grouper P (World P D)) × D.Outside
  unfolding as_grouper
  choose_grouper flags w =
      let (made, w') =
        new_grouper P D flags.credentials_path flags.delegator flags.pattern flags.timeout w in
      if flags.enabled then (as_grouper made, w') else (ok (empty_grouper P (World P D)), w)
