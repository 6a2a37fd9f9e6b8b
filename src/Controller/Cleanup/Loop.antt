-- ===== src/Controller/Cleanup/Loop.antt =====
-- What the loop of the cleanup does to the objects on the API server.
use rbacsync.Prelude.{
  Option-cases, String, string_eq, ◌≡◌, refl, sym, ◌∙◌, ◌⊎◌, inl, inr, true, false, Bool-cases,
  Option, none, some, List, [], ◌∷◌, ◌++◌, arith, contains, if◌then◌else◌,
}
use rbacsync.Api.{Config}
use rbacsync.Errors.{ErrorPackage}
use rbacsync.Kube.{Kube, Scope, scope_eq}
use rbacsync.Kube.Server.{Server, Key, same_key}
use rbacsync.Controller.Effects.{World}
use rbacsync.Controller.Bindings.{Object, namespace_of}
use rbacsync.Controller.Bindings.Writes.{SameObjects}
use rbacsync.Controller.Bindings.Loop.{target}
use rbacsync.Controller.Cleanup.{deleted, clean_one, clean_all}

pub same_key-eq : (j k : Key) → same_key j k ≡ true → j ≡ k
same_key-eq j k h = ground arith

module _ (P : ErrorPackage) (K : Kube P) (S : Server P K) (U : Type 0) (sc : Scope)
    (config : Config) where
  -- What one round may do to the objects.
  pub data Cleaned (active : List String) (object : Object P K U sc) (s t : K.State) : Type 0 where
    -- The object is not the config's, or a binding stands for it.
    left :
        (K.is_controlled_by object config.metadata ≡ false) ⊎ (contains active object.name ≡ true)
        → SameObjects P K S s t
        → Cleaned active object s t
    -- The API server refused, for another reason than that there is no such object.
    refused :
        (e : P.Error)
        → (K.delete sc (namespace_of sc config) object.name s).0 ≡ some e
        → K.is_not_found e ≡ false
        → SameObjects P K S s t
        → Cleaned active object s t
    gone :
        ((e : P.Error)
          → (K.delete sc (namespace_of sc config) object.name s).0 ≡ some e
          → K.is_not_found e ≡ true)
        → K.is_controlled_by object config.metadata ≡ true
        → contains active object.name ≡ false
        → ((k : Key)
            → S.get k t ≡ (if same_key k (target sc config object.name) then none else S.get k s))
        → Cleaned active object s t

  deleted-server :
      (object : Object P K U sc) (failure : Option P.Error) (w : World P K U)
      → (deleted P K U sc config object failure w).server ≡ w.server
  unfolding deleted
  deleted-server object failure w = ground arith

  delete_lem :
      (active : List String) (object : Object P K U sc) (s : K.State)
      → K.is_controlled_by object config.metadata ≡ true
      → contains active object.name ≡ false
      → Cleaned active object s (K.delete sc (namespace_of sc config) object.name s).1
  delete_lem active object s owned idle =
      let j = target sc config object.name in
      elim (Option-cases (K.delete sc (namespace_of sc config) object.name s).0) [
        | inl done ↦ gone (λ e failed. cc) owned idle (λ k. S.get-delete k j s done)
        | inr (e, failed) ↦
            let same = λ (k : Key). S.get-delete_failed k j s e failed in
            elim (Bool-cases (K.is_not_found e)) [
              | inl absent ↦
                  gone (λ x h. ground arith) owned idle
                    (λ k.
                      ground
                        (arith, same k, S.delete_not_found j s e failed absent, same_key-eq k j))
              | inr other ↦ refused e failed other same
            ]
      ]

  pub clean_one_lem :
      (active : List String) (object : Object P K U sc) (w : World P K U)
      → Cleaned active object w.server (clean_one P K U sc config active object w).server
  unfolding clean_one
  clean_one_lem active object w = elim (Bool-cases (K.is_controlled_by object config.metadata)) [
    | inr other ↦ rw other (left (inl other) (λ k. refl))
    | inl owned ↦ rw owned (elim (Bool-cases (contains active object.name)) [
      | inl busy ↦ rw busy (left (inr busy) (λ k. refl))
      | inr idle ↦ rw (idle, deleted-server object) (delete_lem active object w.server owned idle)
    ])
  ]

  -- No object of the list is one to delete under the key.
  abbrev pub Spares : List String → List (Object P K U sc) → Key → Type 0
  Spares active [] k = Unit
  Spares active (object ∷ objects) k =
      (K.is_controlled_by object config.metadata ≡ true
        → contains active object.name ≡ false
        → same_key k (target sc config object.name) ≡ false)
      × Spares active objects k

  -- No key of a marked name is in danger.
  pub Spares-active :
      (active : List String) (objects : List (Object P K U sc)) (n : String)
      → contains active n ≡ true
      → Spares active objects (target sc config n)
  Spares-active active [] n m = tt
  Spares-active active (object ∷ objects) n m =
      (λ owned idle. ground arith, Spares-active active objects n m)

  -- Nor any key of another kind of object or another namespace.
  pub Spares-other :
      (active : List String) (objects : List (Object P K U sc)) (k : Key)
      → ((n : String) → same_key k (target sc config n) ≡ false)
      → Spares active objects k
  Spares-other active [] k h = tt
  Spares-other active (object ∷ objects) k h =
      (λ owned idle. h object.name, Spares-other active objects k h)

  pub one-spared :
      {active : List String} {object : Object P K U sc} {s t : K.State}
      → Cleaned active object s t
      → (k : Key)
      → (K.is_controlled_by object config.metadata ≡ true
          → contains active object.name ≡ false
          → same_key k (target sc config object.name) ≡ false)
      → S.get k t ≡ S.get k s
  one-spared (left why same) k h = same k
  one-spared (refused e failed other same) k h = same k
  one-spared (gone why owned idle rest) k h = ground (arith, rest k, h owned idle)

  pub one-absent :
      {active : List String} {object : Object P K U sc} {s t : K.State}
      → Cleaned active object s t
      → (k : Key) → S.get k s ≡ none
      → S.get k t ≡ none
  one-absent (left why same) k h = same k ∙ h
  one-absent (refused e failed other same) k h = same k ∙ h
  one-absent (gone why owned idle rest) k h = ground (arith, rest k)

  one-some :
      {active : List String} {object x : Object P K U sc} {s t : K.State}
      → Cleaned active object s t
      → (k : Key) → S.get k t ≡ some x
      → S.get k s ≡ some x
  one-some (left why same) k h = sym (same k) ∙ h
  one-some (refused e failed other same) k h = sym (same k) ∙ h
  one-some (gone why owned idle rest) k h = ground (arith, rest k)

  -- The API server refuses to delete the object of the name only if there is none.
  abbrev pub Deletes : String → Type 0
  Deletes n =
      (s : K.State) (e : P.Error)
      → (K.delete sc (namespace_of sc config) n s).0 ≡ some e
      → K.is_not_found e ≡ true

  one-gone :
      {active : List String} {object : Object P K U sc} {s t : K.State}
      → Deletes object.name
      → Cleaned active object s t
      → K.is_controlled_by object config.metadata ≡ true
      → contains active object.name ≡ false
      → S.get (target sc config object.name) t ≡ none
  one-gone d (left (inl other) same) owned idle = cc
  one-gone d (left (inr busy) same) owned idle = cc
  one-gone {object = x} {s = s} d (refused e failed other same) owned idle =
      absurd (ground (arith, d s e failed))
  one-gone {object = x} d (gone _ _ _ rest) owned idle =
      ground (arith, rest (target sc config x.name))

  abbrev cleaned : List String → List (Object P K U sc) → World P K U → World P K U
  cleaned = clean_all P K U sc config

  pub clean_all-spared :
      (active : List String) (objects : List (Object P K U sc)) (w : World P K U) (k : Key)
      → Spares active objects k
      → S.get k (cleaned active objects w).server ≡ S.get k w.server
  unfolding clean_all
  clean_all-spared active [] w k _ = refl
  clean_all-spared active (object ∷ objects) w k (h, rest) =
      clean_all-spared active objects _ k rest ∙ one-spared (clean_one_lem active object w) k h

  clean_all-absent :
      (active : List String) (objects : List (Object P K U sc)) (w : World P K U) (k : Key)
      → S.get k w.server ≡ none
      → S.get k (cleaned active objects w).server ≡ none
  unfolding clean_all
  clean_all-absent active [] w k h = h
  clean_all-absent active (object ∷ objects) w k h =
      clean_all-absent active objects _ k (one-absent (clean_one_lem active object w) k h)

  -- What is there after the cleanup was there before.
  pub clean_all-some :
      (active : List String) (objects : List (Object P K U sc)) (w : World P K U) (k : Key)
      (x : Object P K U sc)
      → S.get k (cleaned active objects w).server ≡ some x
      → S.get k w.server ≡ some x
  unfolding clean_all
  clean_all-some active [] w k x h = h
  clean_all-some active (object ∷ objects) w k x h =
      one-some (clean_one_lem active object w) k (clean_all-some active objects _ k x h)

  -- An object of the config for which no name is marked is deleted.
  pub clean_all-gone :
      (active : List String) (front back : List (Object P K U sc)) (object : Object P K U sc)
      (w : World P K U)
      → Deletes object.name
      → K.is_controlled_by object config.metadata ≡ true
      → contains active object.name ≡ false
      → S.get (target sc config object.name) (cleaned active (front ++ object ∷ back) w).server
        ≡ none
  unfolding clean_all
  clean_all-gone active [] back object w d owned idle =
      clean_all-absent active back _ _ (one-gone d (clean_one_lem active object w) owned idle)
  clean_all-gone active (x ∷ front) back object w d owned idle =
      clean_all-gone active front back object _ d owned idle
