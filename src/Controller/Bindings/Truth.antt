-- ===== src/Controller/Bindings/Truth.antt =====
-- What the reports of a handler claim of the objects, and when a claim stays true.
use mathlib.Core.List.{append_assoc}
use rbacsync.Prelude.{String, string_eq, ◌≡◌, ◌∙◌, ap, true, some, List, [], ◌∷◌, ◌++◌, contains}
use rbacsync.Api.{Config}
use rbacsync.Errors.{ErrorPackage, Arg}
use rbacsync.Kube.{Kube, Scope, scope_eq}
use rbacsync.Kube.Server.{Server}
use rbacsync.Controller.Effects.{
  World, emit, report, Effect, event, inc, log_error, EventType, Gauge, Reason, config_enqueued,
  binding_configured, binding_deleted, binding_duplicated, binding_warning, binding_error,
  unknown_group,
}
use rbacsync.Controller.Bindings.{Object, full_name}
use rbacsync.Controller.Bindings.Loop.{target}

module _ (P : ErrorPackage) (K : Kube P) (S : Server P K) (U : Type 0) (sc : Scope)
    (config : Config) where
  module _ (Gone : Object P K U sc → K.State → Type 0) where
    -- What a report says of the objects, where `Gone` is what it takes to be deleted: a name that
    -- was configured is marked, and there is an object under it.
    abbrev pub Claim : List String → K.State → Reason → List (Arg P.Error) → Type 0
    Claim active s binding_configured args =
        (x : Object P K U sc) × (args ≡ full_name sc x.namespace x.name [])
        × (contains active x.name ≡ true)
        × (S.get (target sc config x.name) s ≡ some x)
    Claim active s binding_deleted args =
        (x : Object P K U sc) × (args ≡ full_name sc x.namespace x.name []) × Gone x s
    Claim active s config_enqueued args = Unit
    Claim active s binding_duplicated args = Unit
    Claim active s binding_warning args = Unit
    Claim active s binding_error args = Unit
    Claim active s unknown_group args = Unit

    abbrev pub IsTrue : List String → K.State → Effect P.Error → Type 0
    IsTrue active s (event type reason format args) = Claim active s reason args
    IsTrue active s (inc gauge kind reason) = Unit
    IsTrue active s (log_error format args) = Unit

    abbrev pub AllTrue : List String → K.State → List (Effect P.Error) → Type 0
    AllTrue active s [] = Unit
    AllTrue active s (e ∷ es) = IsTrue active s e × AllTrue active s es

    -- The second world has the effects of the first, and then such as are true.
    abbrev pub Adds : List String → World P K U → World P K U → Type 0
    Adds active v w =
        (es : List (Effect P.Error)) × (w.effects ≡ v.effects ++ es) × AllTrue active w.server es

  module _ (Gone Gone' : Object P K U sc → K.State → Type 0) where
    Claim-kept :
        (reason : Reason) (args : List (Arg P.Error)) (active active' : List String) (s t : K.State)
        → ((n : String) → contains active n ≡ true → contains active' n ≡ true)
        → ((n : String)
            → contains active n ≡ true
            → S.get (target sc config n) t ≡ S.get (target sc config n) s)
        → ((x : Object P K U sc) → Gone x s → Gone' x t)
        → Claim Gone active s reason args
        → Claim Gone' active' t reason args
    Claim-kept binding_configured args active active' s t marks same gone (x, named, m, there) =
        (x, named, marks x.name m, same x.name m ∙ there)
    Claim-kept binding_deleted args active active' s t marks same gone (x, named, g) =
        (x, named, gone x g)
    Claim-kept config_enqueued args active active' s t marks same gone c = tt
    Claim-kept binding_duplicated args active active' s t marks same gone c = tt
    Claim-kept binding_warning args active active' s t marks same gone c = tt
    Claim-kept binding_error args active active' s t marks same gone c = tt
    Claim-kept unknown_group args active active' s t marks same gone c = tt

    -- What was true stays true while marked names stay marked, with the objects under them.
    pub AllTrue-kept :
        (es : List (Effect P.Error)) (active active' : List String) (s t : K.State)
        → ((n : String) → contains active n ≡ true → contains active' n ≡ true)
        → ((n : String)
            → contains active n ≡ true
            → S.get (target sc config n) t ≡ S.get (target sc config n) s)
        → ((x : Object P K U sc) → Gone x s → Gone' x t)
        → AllTrue Gone active s es
        → AllTrue Gone' active' t es
    AllTrue-kept [] active active' s t marks same gone _ = tt
    AllTrue-kept (event type reason format args ∷ es) active active' s t marks same gone (c, cs) = (
      Claim-kept reason args active active' s t marks same gone c,
      AllTrue-kept es active active' s t marks same gone cs,
    )
    AllTrue-kept (inc gauge kind reason ∷ es) active active' s t marks same gone (c, cs) =
        (tt, AllTrue-kept es active active' s t marks same gone cs)
    AllTrue-kept (log_error format args ∷ es) active active' s t marks same gone (c, cs) =
        (tt, AllTrue-kept es active active' s t marks same gone cs)

  module _ (Gone : Object P K U sc → K.State → Type 0) where
    pub AllTrue-append :
        (es fs : List (Effect P.Error)) (active : List String) (s : K.State)
        → AllTrue Gone active s es
        → AllTrue Gone active s fs
        → AllTrue Gone active s (es ++ fs)
    AllTrue-append [] fs active s _ b = b
    AllTrue-append (e ∷ es) fs active s (c, cs) b = (c, AllTrue-append es fs active s cs b)

    -- A report whose claim holds.
    pub report-Adds :
        (active : List String) (v w : World P K U)
        → w.effects ≡ v.effects
        → (type : EventType) (reason : Reason) (format : String) (args : List (Arg P.Error))
          (gauge : Gauge) (kind : String)
        → Claim Gone active w.server reason args
        → Adds Gone active v (report P K U type reason format args gauge kind w)
    unfolding report emit
    report-Adds active v w same type reason format args gauge kind c = (
      event type reason format args ∷ inc gauge kind reason ∷ [],
      rw same (rw append_assoc),
      (c, (tt, tt)),
    )

  module _ (Gone Gone' : Object P K U sc → K.State → Type 0) where
    -- One after the other.
    pub Adds-trans :
        (active active' : List String) (u v w : World P K U)
        → ((n : String) → contains active n ≡ true → contains active' n ≡ true)
        → ((n : String)
            → contains active n ≡ true
            → S.get (target sc config n) w.server ≡ S.get (target sc config n) v.server)
        → ((x : Object P K U sc) → Gone x v.server → Gone' x w.server)
        → Adds Gone active u v
        → Adds Gone' active' v w
        → Adds Gone' active' u w
    Adds-trans active active' u v w marks same gone (es, e, cs) (fs, f, ds) = (
      es ++ fs,
      f ∙ ap (λ l. l ++ fs) e ∙ append_assoc u.effects es fs,
      AllTrue-append Gone' es fs active' w.server
          (AllTrue-kept Gone Gone' es active active' v.server w.server marks same gone cs) ds,
    )
