-- ===== src/Command/Startup/Laws.antt =====
-- What must have gone well before main starts anything.
use rbacsync.Prelude.{
  String, ◌≡◌, refl, Bool, true, false, ◌⊎◌, inl, inr, Option-cases, Option, none, some, List, [],
  ◌∷◌, arith, if◌then◌else◌,
}
use rbacsync.Errors.{ErrorPackage, Arg, text, Result, ok, err, Result-cases}
use rbacsync.Groups.{Grouper}
use rbacsync.Groups.Subjects.{MapOrder}
use rbacsync.Gsuite.{Directory, World}
use rbacsync.Controller.Run.{run}
use rbacsync.Command.{Platform, resolve_config, GsuiteFlags, choose_grouper}
use rbacsync.Command.Laws.{Source, resolve_config-ok}
use rbacsync.Command.Startup.{
  BaseFlags, kube_informers, config_informers, http_server, version_shown, returned, fatal, Left,
  stopped, controlled, configured, main,
}

module _ (P : ErrorPackage) (F : Platform P) (D : Directory P) (o : MapOrder)
    (new_kubeclient new_clientset : F.ClusterConfig → Option P.Error) where
  -- Nothing was started.
  abbrev pub Nothing : Left P F D o new_kubeclient new_clientset → Type 0
  Nothing l = (l.goroutines ≡ []) × (l.grouper ≡ none) × (l.controller ≡ none)

  -- All that main needs is there, and the controller runs with the grouper that the flags choose.
  pub record Everything (base : BaseFlags) (gsuite : GsuiteFlags) (synced : Bool)
      (outside : D.Outside) (l : Left P F D o new_kubeclient new_clientset) : Type 0 where
    pub config : F.ClusterConfig
    pub source : Source P F base.kubeconfig config
    pub kubeclient : new_kubeclient config ≡ none
    pub clientset : new_clientset config ≡ none
    pub chosen : Grouper P (World P D)
    pub choice : (choose_grouper P D o gsuite outside).0 ≡ ok chosen
    pub grouper : l.grouper ≡ some chosen
    pub goroutines : l.goroutines ≡ kube_informers ∷ config_informers ∷ http_server ∷ []
    pub controller : l.controller ≡ some (run synced base.poll_period)
    pub ending :
        ((synced ≡ true) × (l.ending ≡ returned))
        ⊎ ((synced ≡ false)
            × (l.ending
                ≡ fatal "error running controller: %s" (text "failed to sync informer cache" ∷ [])))

  -- The ways in which main may go.
  pub data Outcome (base : BaseFlags) (gsuite : GsuiteFlags) (synced : Bool) (outside : D.Outside)
      (l : Left P F D o new_kubeclient new_clientset) : Type 0 where
    shown :
        base.show_version ≡ true
        → l.ending ≡ version_shown
        → Nothing l
        → Outcome base gsuite synced outside l
    died :
        base.show_version ≡ false
        → (message : String) (args : List (Arg P.Error)) → l.ending ≡ fatal message args
        → Nothing l
        → Outcome base gsuite synced outside l
    ran :
        base.show_version ≡ false
        → Everything base gsuite synced outside l
        → Outcome base gsuite synced outside l

  controlled-Everything :
      (base : BaseFlags) (gsuite : GsuiteFlags) (synced : Bool) (outside : D.Outside)
      (config : F.ClusterConfig) (chosen : Grouper P (World P D))
      → Source P F base.kubeconfig config
      → new_kubeclient config ≡ none
      → new_clientset config ≡ none
      → (choose_grouper P D o gsuite outside).0 ≡ ok chosen
      → Everything base gsuite synced outside
          (controlled P F D o new_kubeclient new_clientset synced base.poll_period (ok chosen))
  unfolding controlled run
  controlled-Everything base gsuite synced outside config chosen s k c g = record {
    config = config;
    source = s;
    kubeclient = k;
    clientset = c;
    chosen = chosen;
    choice = g;
    grouper = refl;
    goroutines = refl;
    controller = refl;
    ending = ground arith;
  }

  configured_lem :
      (base : BaseFlags) (gsuite : GsuiteFlags) (synced : Bool) (outside : D.Outside)
      (r : Result P.Error F.ClusterConfig)
      → resolve_config P F base.kubeconfig ≡ r
      → base.show_version ≡ false
      → Outcome base gsuite synced outside
          (configured P F D o new_kubeclient new_clientset base gsuite synced outside r)
  unfolding configured controlled stopped
  configured_lem base gsuite synced outside (err e) p h = died h _ _ refl (refl, refl, refl)
  configured_lem base gsuite synced outside (ok config) p h =
      elim (Option-cases (new_kubeclient config)) [
        | inr (e, q) ↦ rw (configured, q) (died h _ _ refl (refl, refl, refl))
        | inl k ↦ elim (Option-cases (new_clientset config)) [
          | inr (e, q) ↦ rw (configured, k, q) (died h _ _ refl (refl, refl, refl))
          | inl c ↦ elim (Result-cases (choose_grouper P D o gsuite outside).0) [
            | inr (e, q) ↦ rw (configured, k, c, q) (died h _ _ refl (refl, refl, refl))
            | inl (g, q) ↦
                rw (configured, k, c, q)
                  (ran h (
                    controlled-Everything base gsuite synced outside config g
                      (resolve_config-ok P F base.kubeconfig config p) k c q))
          ]
        ]
      ]

  version_or :
      (base : BaseFlags) (gsuite : GsuiteFlags) (synced : Bool) (outside : D.Outside) (b : Bool)
      → base.show_version ≡ b
      → Outcome base gsuite synced outside (
          if b
          then stopped P F D o new_kubeclient new_clientset version_shown
          else configured P F D o new_kubeclient new_clientset base gsuite synced outside
              (resolve_config P F base.kubeconfig))
  unfolding stopped
  version_or base gsuite synced outside true h = shown h refl (refl, refl, refl)
  version_or base gsuite synced outside false h = configured_lem base gsuite synced outside _ refl h

  -- If main is told to show the version, it does so and starts nothing. Otherwise it dies and has
  -- started nothing, or everything that it needs was set up without an error: then it starts both
  -- informer factories, the HTTP server and the controller, with a configuration of the file or of
  -- the cluster and with the grouper that the flags choose, and it returns if the caches of the
  -- informers are filled.
  pub main_lem :
      (base : BaseFlags) (gsuite : GsuiteFlags) (synced : Bool) (outside : D.Outside)
      → Outcome base gsuite synced outside
          (main P F D o new_kubeclient new_clientset base gsuite synced outside)
  unfolding main
  main_lem base gsuite synced outside = version_or base gsuite synced outside base.show_version refl
