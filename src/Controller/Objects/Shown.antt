-- ===== src/Controller/Objects/Shown.antt =====
-- What the cleanup deletes when the lister is up to date.
use rbacsync.Prelude.{
  String, string_eq, ◌≡◌, refl, sym, ap, subst, inl, inr, ◌==◌, Bool, true, false, Bool-cases, ◌&&◌,
  ◌||◌, not, Option, none, some, List, [], ◌∷◌, ◌++◌, arith, contains, if◌then◌else◌,
}
use rbacsync.Api.{Config}
use rbacsync.Errors.{ErrorPackage, ok}
use rbacsync.Kube.{Kube, Scope, scope_eq}
use rbacsync.Kube.Server.{Server}
use rbacsync.Controller.Effects.{World}
use rbacsync.Controller.Bindings.{Object}
use rbacsync.Controller.Bindings.Loop.{target}
use rbacsync.Controller.Cleanup.{clean_all}
use rbacsync.Controller.Cleanup.Loop.{
  Spares, Spares-active, Deletes, clean_all-spared, clean_all-gone,
}
use rbacsync.Controller.Cleanup.Refusals.{Refuses, clean_all-refused}
use rbacsync.Controller.Objects.{selected}

module _ (P : ErrorPackage) (K : Kube P) (S : Server P K) (U : Type 0) (sc : Scope)
    (config : Config) where
  abbrev pub owns : Option (Object P K U sc) → Bool
  owns none = false
  owns (some object) = K.is_controlled_by object config.metadata

  -- An object of the list is the config's own and has the name.
  unfoldable pub shows : List (Object P K U sc) → String → Bool
  shows [] n = false
  shows (object ∷ objects) n =
      (K.is_controlled_by object config.metadata && (object.name == n)) || shows objects n

  -- The lister shows the config's own objects as they are on the server.
  pub record IsCurrent (s : K.State) : Type 0 where
    pub objects : List (Object P K U sc)
    pub listed : selected P K S U sc config s ≡ ok objects
    pub shown : (n : String) → shows objects n ≡ owns (S.get (target sc config n) s)

  shows-Spares :
      (active : List String) (objects : List (Object P K U sc)) (n : String)
      → shows objects n ≡ false
      → Spares P K S U sc config active objects (target sc config n)
  unfolding shows
  shows-Spares active [] n h = tt
  shows-Spares active (object ∷ objects) n h =
      (λ owned idle. ground arith, shows-Spares active objects n (ground arith))

  record Shown (objects : List (Object P K U sc)) (n : String) : Type 0 where
    front : List (Object P K U sc)
    back : List (Object P K U sc)
    object : Object P K U sc
    split : objects ≡ front ++ object ∷ back
    owned : K.is_controlled_by object config.metadata ≡ true
    named : object.name ≡ n

  shows-Shown :
      (objects : List (Object P K U sc)) (n : String) → shows objects n ≡ true → Shown objects n
  unfolding shows
  shows-Shown [] n h = cc
  shows-Shown (x ∷ objects) n h =
      elim (Bool-cases (K.is_controlled_by x config.metadata && (x.name == n))) [
        | inl here ↦ record {
          front = [];
          back = objects;
          object = x;
          split = refl;
          owned = ground arith;
          named = ground arith;
        }
        | inr not_here ↦
            let r = shows-Shown objects n (ground arith) in
            record {
              front = x ∷ r.front;
              back = r.back;
              object = r.object;
              split = ap (x ∷◌) r.split;
              owned = r.owned;
              named = r.named;
            }
      ]

  -- An object that is shown and not marked is deleted, if the API server deletes it.
  shown-gone :
      (active : List String) (objects : List (Object P K U sc)) (w : World P K U) (n : String)
      → Deletes P K S U sc config n
      → contains active n ≡ false
      → shows objects n ≡ true
      → S.get (target sc config n) (clean_all P K U sc config active objects w).server ≡ none
  shown-gone active objects w n d idle shown =
      let x = shows-Shown objects n shown in
      subst
        (λ m. S.get (target sc config m) (clean_all P K U sc config active objects w).server ≡ none)
        x.named
        (subst
          (λ xs.
            S.get (target sc config x.object.name) (clean_all P K U sc config active xs w).server
            ≡ none)
          (sym x.split)
          (clean_all-gone P K S U sc config active x.front x.back x.object w (rw x.named d) x.owned
            (rw (x.named, idle))))

  -- The cleanup deletes the config's own objects that are shown and not marked, where the API
  -- server lets it.
  pub clean_all-shown :
      (active : List String) (objects : List (Object P K U sc)) (w : World P K U) (n : String)
      (lets : Bool)
      → (lets ≡ true → Deletes P K S U sc config n)
      → (lets ≡ false → Refuses P K S U sc config n)
      → S.get (target sc config n) (clean_all P K U sc config active objects w).server ≡ (
          if not (contains active n) && (shows objects n && lets)
          then none
          else S.get (target sc config n) w.server)
  clean_all-shown active objects w n lets d r = elim (Bool-cases (contains active n)) [
    | inl marked ↦ rw marked (
        clean_all-spared P K S U sc config active objects w (target sc config n)
          (Spares-active P K S U sc config active objects n marked))
    | inr idle ↦ elim (Bool-cases (shows objects n)) [
      | inr hidden ↦
          rw (idle, hidden)
            (clean_all-spared P K S U sc config active objects w (target sc config n)
              (shows-Spares active objects n hidden))
      | inl shown ↦ elim (Bool-cases lets) [
        | inl allowed ↦
            rw (idle, shown, allowed) (shown-gone active objects w n (d allowed) idle shown)
        | inr forbidden ↦
            rw (idle, shown, forbidden)
              (clean_all-refused P K S U sc config active objects w n (r forbidden))
      ]
    ]
  ]
