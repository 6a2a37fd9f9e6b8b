-- ===== src/Command/Startup.antt =====
-- The flags and the function main of cmd/rbacsync/main.go.
pub mod Laws
use rbacsync.Prelude.{
  ℕ, String, string_eq, ◌==◌, Bool, true, false, Option, none, some, List, [], ◌∷◌, if◌then◌else◌,
}
use rbacsync.Errors.{ErrorPackage, Result, ok, err, Arg, text, error}
use rbacsync.Groups.{Grouper}
use rbacsync.Groups.Subjects.{MapOrder}
use rbacsync.Gsuite.{Directory, World}
use rbacsync.Integers.{pos}
use rbacsync.Controller.Run.{Duration, Ended, run}
use rbacsync.Command.{Environment, home_dir, Platform, resolve_config, GsuiteFlags, choose_grouper}

-- baseFlags
pub record BaseFlags : Type 0 where
  pub kubeconfig : String
  pub show_version : Bool
  pub debug_addr : String
  pub poll_period : Duration

-- The flags as they are before the command line is parsed, where `join` is filepath.Join.
unfoldable pub initial_flags : Environment → (List String → String) → BaseFlags × GsuiteFlags
unfolding home_dir
initial_flags env join =
    let home = home_dir env in
    (
      record {
        kubeconfig = if home == "" then "" else join (home ∷ ".kube" ∷ "config" ∷ []);
        show_version = false;
        debug_addr = ":8080";
        poll_period = pos 300000000000;
      },
      record {
        enabled = false;
        credentials_path = "";
        delegator = "";
        pattern = "";
        timeout = pos 30000000000;
      },
    )

-- What main starts besides the controller.
pub data Goroutine : Type 0 where
  kube_informers config_informers http_server : Goroutine

-- How main ends: with the version printed, by a call of klog.Fatal…, or by returning.
pub data Ending (E : Type 0) : Type 0 where
  version_shown returned : Ending E
  fatal : String → List (Arg E) → Ending E

module _ (P : ErrorPackage) (F : Platform P) (D : Directory P) (o : MapOrder)
    (new_kubeclient new_clientset : F.ClusterConfig → Option P.Error) where
  -- What main leaves behind: how it ended, what it started, the grouper that the controller got, and
  -- what Run did, if it was called.
  pub record Left : Type 0 where
    pub ending : Ending P.Error
    pub goroutines : List Goroutine
    pub grouper : Option (Grouper P (World P D))
    pub controller : Option Ended

  stopped : Ending P.Error → Left
  stopped ending = record { ending = ending; goroutines = []; grouper = none; controller = none }

  -- From the grouper on.
  controlled : Bool → Duration → Result P.Error (Grouper P (World P D)) → Left
  unfolding stopped run
  controlled synced poll_period (err e) =
      stopped (fatal "failed to configure gsuite: %v" (error e ∷ []))
  controlled synced poll_period (ok grouper) =
      let ended = run synced poll_period in
      record {
        ending = elim ended.failure [
          | none ↦ returned
          | some message ↦ fatal "error running controller: %s" (text message ∷ [])
        ];
        goroutines = kube_informers ∷ config_informers ∷ http_server ∷ [];
        grouper = some grouper;
        controller = some ended;
      }

  -- From the configuration of the cluster on.
  configured : BaseFlags → GsuiteFlags → Bool → D.Outside → Result P.Error F.ClusterConfig → Left
  unfolding stopped controlled choose_grouper
  configured base gsuite synced outside (err e) =
      stopped (fatal "unable to resolve kube configuration: %v" (error e ∷ []))
  configured base gsuite synced outside (ok config) = elim (new_kubeclient config) [
    | some e ↦ stopped (fatal "" (error e ∷ []))
    | none ↦ elim (new_clientset config) [
      | some e ↦ stopped (fatal "error making config" (error e ∷ []))
      | none ↦ controlled synced base.poll_period (choose_grouper P D o gsuite outside).0
    ]
  ]

  -- main, given whether the caches of the informers are filled before the stop channel is closed.
  unfoldable pub main : BaseFlags → GsuiteFlags → Bool → D.Outside → Left
  unfolding configured resolve_config
  main base gsuite synced outside =
      if base.show_version
      then stopped version_shown
      else configured base gsuite synced outside (resolve_config P F base.kubeconfig)
