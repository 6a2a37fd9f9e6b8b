-- ===== src/Controller/Effects.antt =====
-- What the handlers of pkg/controller/controller.go leave behind besides the objects: the events
-- that they record, the gauges that they count up and the errors that they log, oldest first.
use rbacsync.Prelude.{String, List, [], ◌∷◌, ◌++◌}
use rbacsync.Errors.{ErrorPackage, Arg}
use rbacsync.Kube.{Kube, Scope, namespaced, cluster}

-- corev1.EventTypeNormal and corev1.EventTypeWarning
pub data EventType : Type 0 where
  normal warning : EventType

-- The constants EventReason…
pub data Reason : Type 0 where
  config_enqueued binding_configured binding_deleted : Reason
  binding_duplicated binding_warning binding_error unknown_group : Reason

-- The two gauges of the controller in pkg/metrics/metrics.go.
pub data Gauge : Type 0 where
  config_status binding_status : Gauge

-- A call of `Eventf`, a call of `Inc` with its two labels, a call of `klog.Errorf`.
pub data Effect (E : Type 0) : Type 0 where
  event : EventType → Reason → String → List (Arg E) → Effect E
  inc : Gauge → String → Reason → Effect E
  log_error : String → List (Arg E) → Effect E

-- LabelKindRBACSyncConfig and LabelKindClusterRBACSyncConfig
abbrev pub config_kind : Scope → String
config_kind namespaced = "RBACSyncConfig"
config_kind cluster = "ClusterRBACSyncConfig"

-- LabelKindRoleBinding and LabelKindClusterRoleBinding
abbrev pub binding_kind : Scope → String
binding_kind namespaced = "RoleBinding"
binding_kind cluster = "ClusterRoleBinding"

module _ (P : ErrorPackage) (K : Kube P) (U : Type 0) where
  -- The API, the outside world of the grouper, and the effects so far.
  pub record World : Type 0 where
    pub server : K.State
    pub upstream : U
    pub effects : List (Effect P.Error)

  -- One effect more.
  unfoldable pub emit : Effect P.Error → World → World
  emit e w = record w { effects = w.effects ++ e ∷ [] }

  -- An event, and the gauge that counts its reason under a kind.
  unfoldable pub report :
      EventType → Reason → String → List (Arg P.Error) → Gauge → String → World → World
  unfolding emit
  report type reason format args gauge kind w =
      emit (inc gauge kind reason) (emit (event type reason format args) w)
