-- ===== src/Controller/Objects.antt =====
-- What a handler of pkg/controller/controller.go leaves on the API server. The scope is a variable:
-- each theorem is about handleConfig and about handleClusterConfig.
pub mod Bound
pub mod Gone
pub mod Policy
pub mod Desired
pub mod Shown
pub mod Settled
pub mod Declared
pub mod Granted
pub mod Told
use rbacsync.Prelude.{
  String, string_eq, ◌≡◌, ◌≢◌, refl, sym, ◌∙◌, ap, subst, ◌⊎◌, inl, inr, true, false, Bool-cases,
  Option, none, some, List, [], ◌∷◌, ◌++◌, arith, contains, if◌then◌else◌,
}
use rbacsync.Api.{Subject, Binding, Config}
use rbacsync.Errors.{
  ErrorPackage, Result, ok, err, Result-cases, is_not_found, is_unknown_memberships,
}
use rbacsync.Groups.{Grouper}
use rbacsync.Kube.{Kube, Scope, scope_eq}
use rbacsync.Kube.Server.{Server, Key, same_key}
use rbacsync.Controller.Effects.{World}
use rbacsync.Controller.Bindings.{
  Object, namespace_of, bound_name, kind_is_valid, object_for, create_or_update, bind_one, bind_all,
}
use rbacsync.Controller.Bindings.Loop.{
  target, bound_names, bind_all-present, bind_all-marks, bind_all-kept, bind_all-frame,
  bind_all-names, bind_all-append,
}
use rbacsync.Controller.Cleanup.{build_child_selector, clean_all, clean_up, handle}
use rbacsync.Controller.Cleanup.Loop.{
  Spares, Spares-active, Spares-other, Deletes, clean_all-spared, clean_all-gone,
}

module _ (P : ErrorPackage) (K : Kube P) (S : Server P K) (U : Type 0) (sc : Scope)
    (config : Config) where
  -- What the cleanup is given to look through: the selector is built, and the lister asked.
  unfoldable pub selected : K.State → Result P.Error (List (Object P K U sc))
  selected s = elim (build_child_selector P K U config.metadata.name) [
    | err e ↦ err e
    | ok selector ↦ K.list sc (namespace_of sc config) selector s
  ]

  -- The cleanup without a listing changes nothing and fails; with one, it is its loop.
  pub clean_up_lem :
      (active : List String) (w : World P K U)
      → ((e : P.Error) → selected w.server ≡ err e → (clean_up P K U sc config active w).1 ≡ w)
        × ((objects : List (Object P K U sc))
            → selected w.server ≡ ok objects
            → clean_up P K U sc config active w
              ≡ (none, clean_all P K U sc config active objects w))
  unfolding selected clean_up
  clean_up_lem active w = (λ e h. ground arith, λ objects h. ground arith)

  clean_up-spared :
      (active : List String) (w : World P K U) (k : Key)
      → ((objects : List (Object P K U sc))
          → selected w.server ≡ ok objects
          → Spares P K S U sc config active objects k)
      → S.get k (clean_up P K U sc config active w).1.server ≡ S.get k w.server
  clean_up-spared active w k h = elim (Result-cases (selected w.server)) [
    | inl (objects, p) ↦
        rw ((clean_up_lem active w).1 objects p)
          (clean_all-spared P K S U sc config active objects w k (h objects p))
    | inr (e, p) ↦ rw ((clean_up_lem active w).0 e p)
  ]

  module _ (gm : Grouper P U) where
    -- The marked names and the world between the two loops.
    abbrev pub bound : World P K U → List String × World P K U
    bound w = bind_all P K U sc config gm config.spec.bindings [] w

    abbrev pub handled : World P K U → World P K U
    handled w = (handle P K U sc config gm w).1

    -- A handler is its two loops, one after the other.
    pub handle_lem :
        (w : World P K U)
        → handle P K U sc config gm w ≡ clean_up P K U sc config (bound w).0 (bound w).1
    unfolding handle
    handle_lem w = refl

    -- A handler leaves alone every object of the other kind, and of another namespace.
    pub handle-elsewhere :
        (w : World P K U) (k : Key)
        → ((n : String) → same_key k (target sc config n) ≡ false)
        → S.get k (handled w).server ≡ S.get k w.server
    unfolding handle
    handle-elsewhere w k other =
        clean_up-spared (bound w).0 (bound w).1 k
          (λ objects _. Spares-other P K S U sc config _ objects k other)
        ∙ bind_all-frame P K S U sc config gm config.spec.bindings [] w k (λ n _. other n)

    -- No object of the list belongs to the config and has the key.
    abbrev pub NotOwned : List (Object P K U sc) → Key → Type 0
    NotOwned [] k = Unit
    NotOwned (object ∷ objects) k =
        (K.is_controlled_by object config.metadata ≡ true
          → same_key k (target sc config object.name) ≡ false)
        × NotOwned objects k

    NotOwned-Spares :
        (active : List String) (objects : List (Object P K U sc)) (k : Key)
        → NotOwned objects k
        → Spares P K S U sc config active objects k
    NotOwned-Spares active [] k _ = tt
    NotOwned-Spares active (object ∷ objects) k (h, rest) =
        (λ owned _. h owned, NotOwned-Spares active objects k rest)

    -- A handler leaves alone every object for which no valid binding of the config stands, unless
    -- the lister shows an object of that name as the config's own.
    pub handle-foreign :
        (w : World P K U) (k : Key)
        → ((n : String)
            → contains (bound_names sc config config.spec.bindings) n ≡ true
            → same_key k (target sc config n) ≡ false)
        → ((s : K.State) (objects : List (Object P K U sc))
            → selected s ≡ ok objects
            → NotOwned objects k)
        → S.get k (handled w).server ≡ S.get k w.server
    unfolding handle
    handle-foreign w k unbound unowned =
        clean_up-spared (bound w).0 (bound w).1 k
          (λ objects p. NotOwned-Spares _ objects k (unowned _ objects p))
        ∙ bind_all-frame P K S U sc config gm config.spec.bindings [] w k unbound

    -- A marked name is safe from the cleanup.
    pub handle-marked :
        (w : World P K U) (n : String)
        → contains (bound w).0 n ≡ true
        → S.get (target sc config n) (handled w).server
          ≡ S.get (target sc config n) (bound w).1.server
    unfolding handle
    handle-marked w n m =
        clean_up-spared (bound w).0 (bound w).1 _
          (λ objects _. Spares-active P K S U sc config _ objects n m)
