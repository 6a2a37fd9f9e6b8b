-- ===== src/Controller/Queue/Worlds.antt =====
-- What a worker's function may do to the world.
use rbacsync.Prelude.{String, ◌≡◌, inl, inr, Option, none, some, sym, subst}
use rbacsync.Api.{Config}
use rbacsync.Errors.{ErrorPackage, Result, ok, Result-cases}
use rbacsync.Kube.{Scope}
use rbacsync.Controller.Queue.{Keys, Handled, complain, looked_for, find_config, process_key}
use rbacsync.Controller.Queue.Laws.{process_key-found, process_key-missing, ran}

module _ (P : ErrorPackage) (C : Keys P) (W : Type 0) (sc : Scope)
    (get : String → String → W → Result P.Error Config) (handler : Config → W → Option P.Error × W)
    (Holds : W → Type 0) where
  abbrev Run : Type 0
  Run = Handled P C W sc get handler

  ran-world :
      (k : String) (h : Run) (r : Option P.Error × W)
      → Holds r.1
      → Holds (ran P C W sc get handler k h r).world
  ran-world k h (none, w) held = held
  ran-world k h (some e, w) held = held

  -- What holds of the world before, and of the world after the handler has run on a config that the
  -- lister returns, holds after the key is processed.
  pub process_key-holds :
      (k : String) (h : Run)
      → Holds h.world
      → ((namespace name : String) (config : Config)
          → get namespace name h.world ≡ ok config
          → Holds (handler config h.world).1)
      → Holds (process_key P C W sc get handler k h).world
  unfolding process_key find_config complain
  process_key-holds k h held handles = elim (Result-cases (C.split_meta_namespace_key k)) [
    | inr (e, p) ↦ rw (p, find_config) held
    | inl ((namespace, name), p) ↦
        elim (Result-cases (get (looked_for P C W sc get handler sc namespace) name h.world)) [
          | inr (e, q) ↦
              subst (λ (r : Run). Holds r.world)
                (sym (process_key-missing P C W sc get handler k namespace name e h p q)) held
          | inl (config, q) ↦
              subst (λ (r : Run). Holds r.world)
                (sym (process_key-found P C W sc get handler k namespace name config h p q))
                (ran-world k h (handler config h.world) (handles _ name config q))
        ]
  ]
