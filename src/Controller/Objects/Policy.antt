-- ===== src/Controller/Objects/Policy.antt =====
-- What the API server lets the controller do to the objects of a config. It may refuse to write an
-- object, for example one that grants a role that the controller may not grant, and it may refuse to
-- delete one.
use rbacsync.Prelude.{String, ◌≡◌, Bool, true, false}
use rbacsync.Api.{Config}
use rbacsync.Errors.{ErrorPackage, err}
use rbacsync.Groups.{Grouper}
use rbacsync.Kube.{Kube, Scope, BoundRole}
use rbacsync.Kube.Server.{Server}
use rbacsync.Controller.Bindings.{Object, create_or_update}
use rbacsync.Controller.Cleanup.Loop.{Deletes}
use rbacsync.Controller.Cleanup.Refusals.{Refuses}
use rbacsync.Controller.Objects.Bound.{Writes}

module _ (P : ErrorPackage) (K : Kube P) where
  -- Which objects it accepts, and under which names it lets an object be deleted.
  pub record Policy : Type 0 where
    pub accepts : BoundRole K.OwnerReference → Bool
    pub removes : String → Bool

  -- It does whatever it is asked to.
  abbrev pub open_policy : Policy
  open_policy = record { accepts = λ object. true; removes = λ n. true }

  -- The API server acts by the policy, whatever objects it holds.
  pub record Heeds (S : Server P K) (U : Type 0) (sc : Scope) (config : Config) (gm : Grouper P U)
      (policy : Policy) : Type 0 where
    pub writes :
        (object : Object P K U sc)
        → policy.accepts object ≡ true
        → Writes P K S U sc config gm object
    pub rejects :
        (object : Object P K U sc)
        → policy.accepts object ≡ false
        → (s : K.State) → (e : P.Error) × ((create_or_update P K U sc object s).0 ≡ err e)
    pub deletes : (n : String) → policy.removes n ≡ true → Deletes P K S U sc config n
    pub refuses : (n : String) → policy.removes n ≡ false → Refuses P K S U sc config n
