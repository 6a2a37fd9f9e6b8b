-- ===== src/Controller/Bindings/Writes.antt =====
-- What the loop over the bindings does to the objects on the API server.
use rbacsync.Prelude.{
  String, string_eq, ◌≡◌, refl, ◌∙◌, ap, true, false, inl, inr, Bool-cases, some, List, [], ◌∷◌,
  contains, if◌then◌else◌,
}
use rbacsync.Api.{Subject, Binding, Config}
use rbacsync.Errors.{
  ErrorPackage, Result, ok, err, Result-cases, is_not_found, is_unknown_memberships,
}
use rbacsync.Groups.{Grouper, Reply}
use rbacsync.Kube.{Kube, Scope, scope_eq, BoundRole}
use rbacsync.Kube.Server.{Server, Key, same_key, key_of}
use rbacsync.Controller.Effects.{World}
use rbacsync.Controller.Bindings.{
  Object, object_for, bound_name, create_or_update, written, write, with_members, bind_one,
  kind_is_valid,
}

module _ (P : ErrorPackage) (K : Kube P) (S : Server P K) where
  -- The two states hold the same objects.
  abbrev pub SameObjects : K.State → K.State → Type 0
  SameObjects s t = (k : Key) → S.get k t ≡ S.get k s

  -- The second state holds the object, as the server stores it, and else what the first holds.
  abbrev pub Stores : Scope → BoundRole K.OwnerReference → K.State → K.State → Type 0
  Stores sc object s t =
      (k : Key)
      → S.get k t
        ≡ (if same_key k (key_of P K sc object) then some (S.stored object) else S.get k s)

  module _ (U : Type 0) (sc : Scope) where
    abbrev pub Wrote :
        Object P K U sc → K.State → Result P.Error (Object P K U sc) × K.State → Type 0
    Wrote object s (ok returned, t) = (returned ≡ S.stored object) × Stores sc object s t
    Wrote object s (err e, t) = SameObjects s t

    -- Whatever the API server answers to the two calls: if an object is returned, it is the given
    -- one as the server stores it, the server now holds it under its name, and nothing else has
    -- changed. If an error is returned, nothing has changed.
    pub create_or_update_lem :
        (object : Object P K U sc) (s : K.State)
        → Wrote object s (create_or_update P K U sc object s)
    unfolding create_or_update
    create_or_update_lem object s = elim (Result-cases (K.update sc object s).0) [
      | inl (returned, p) ↦ rw (p, create_or_update) (S.get-update sc object returned s p)
      | inr (e, p) ↦
          let kept = S.get-update_failed sc object s e p in
          rw (p, create_or_update)
            (elim (Bool-cases (K.is_not_found e)) [
              | inr other ↦ rw other kept
              | inl absent ↦
                  rw absent (elim (Result-cases (K.create sc object (K.update sc object s).1).0) [
                    | inl (returned, q) ↦
                        let (r, sets) = S.get-create sc object returned _ q in
                        rw q (r, λ k. sets k ∙ rw (kept k))
                    | inr (x, q) ↦ rw q (λ k. S.get-create_failed sc object _ x q k ∙ kept k)
                  ])
            ])
    ]

    -- What one round of the loop may do, by the answer of the grouper.
    pub data Outcome (config : Config) (binding : Binding) (active : List String) (s : K.State)
        (active' : List String) (t : K.State) : Type 0 where
      -- Nothing is written and no name is marked.
      skipped : active' ≡ active → SameObjects s t → Outcome config binding active s active' t
      -- The name is marked, and what is there stays.
      held :
          kind_is_valid sc binding.role_ref.kind ≡ true
          → active' ≡ bound_name config binding ∷ active
          → SameObjects s t
          → Outcome config binding active s active' t
      -- The object is written under a name that was not marked.
      bound :
          (members : List Subject)
          → kind_is_valid sc binding.role_ref.kind ≡ true
          → contains active (bound_name config binding) ≡ false
          → active' ≡ bound_name config binding ∷ active
          → Stores sc (object_for P K U sc config binding members) s t
          → Outcome config binding active s active' t

    module _ (config : Config) where
      written_lem :
          (binding : Binding) (members : List Subject) (active : List String) (w : World P K U)
          (result : Result P.Error (Object P K U sc)) (t : K.State)
          → kind_is_valid sc binding.role_ref.kind ≡ true
          → contains active (bound_name config binding) ≡ false
          → let object = object_for P K U sc config binding members in
            Wrote object w.server (result, t)
            → let (active', w') =
                written P K U sc config object result active (record w { server = t }) in
              Outcome config binding active w.server active' w'.server
      unfolding written object_for
      written_lem binding members active w (ok returned) t valid fresh (same, sets) =
          let name = ap (λ (x : Object P K U sc). x.name) same ∙ S.stored-name _ in
          bound members valid fresh (ap (λ n. n ∷ active) name) sets
      written_lem binding members active w (err e) t valid fresh kept = skipped refl kept

      write_lem :
          (binding : Binding) (members : List Subject) (active : List String) (w : World P K U)
          → kind_is_valid sc binding.role_ref.kind ≡ true
          → contains active (bound_name config binding) ≡ false
          → let (active', w') =
              write P K U sc config (object_for P K U sc config binding members) active w in
            Outcome config binding active w.server active' w'.server
      unfolding write
      write_lem binding members active w valid fresh =
          let object = object_for P K U sc config binding members in
          let (result, t) = create_or_update P K U sc object w.server in
          written_lem binding members active w result t valid fresh
            (create_or_update_lem object w.server)

      with_members_lem :
          (binding : Binding) (reply : Reply P U) (active : List String) (w : World P K U)
          → kind_is_valid sc binding.role_ref.kind ≡ true
          → let (active', w') = with_members P K U sc config binding reply active w in
            Outcome config binding active w.server active' w'.server
      unfolding with_members
      with_members_lem binding (ok []) active w valid = skipped refl (λ k. refl)
      with_members_lem binding (ok (m ∷ members)) active w valid =
          elim (Bool-cases (contains active (bound_name config binding))) [
            | inl seen ↦ rw seen (skipped refl (λ k. refl))
            | inr fresh ↦ rw fresh (write_lem binding (m ∷ members) active w valid fresh)
          ]
      with_members_lem binding (err e) active w valid = elim (Bool-cases (is_not_found P e)) [
        | inl absent ↦ rw absent (skipped refl (λ k. refl))
        | inr other ↦ rw other (elim (Bool-cases (is_unknown_memberships P e)) [
          | inl unknown ↦ rw unknown (held valid refl (λ k. refl))
          | inr silent ↦ rw silent (skipped refl (λ k. refl))
        ])
      ]

      -- Every round of the loop has one of the three outcomes.
      pub bind_one_lem :
          (gm : Grouper P U) (binding : Binding) (active : List String) (w : World P K U)
          → let (active', w') = bind_one P K U sc config gm binding active w in
            Outcome config binding active w.server active' w'.server
      unfolding bind_one
      bind_one_lem gm binding active w =
          elim (Bool-cases (kind_is_valid sc binding.role_ref.kind)) [
            | inl valid ↦ rw valid (with_members_lem binding _ active _ valid)
            | inr wrong ↦ rw wrong (skipped refl (λ k. refl))
          ]

-- The round of the loop that reaches the write, from the answer of the API server.
module _ (P : ErrorPackage) (K : Kube P) (U : Type 0) (sc : Scope) (config : Config)
    (gm : Grouper P U) where
  module _ (b : Binding) (m : Subject) (members : List Subject) (active : List String)
      (w : World P K U) (valid : kind_is_valid sc b.role_ref.kind ≡ true)
      (has : (gm b.group w.upstream).0 ≡ ok (m ∷ members))
      (fresh : contains active (bound_name config b) ≡ false) where
    bind_one-write :
        bind_one P K U sc config gm b active w
        ≡ write P K U sc config
            (object_for P K U sc config b (m ∷ members))
            active
            (record w { upstream = (gm b.group w.upstream).1 })
    unfolding bind_one
    bind_one-write = rw valid (rw has (rw fresh refl))

    -- It does to the API server what createOrUpdate does.
    pub bind_one-server :
        (bind_one P K U sc config gm b active w).1.server
        ≡ (create_or_update P K U sc (object_for P K U sc config b (m ∷ members)) w.server).1
    bind_one-server =
        let object = object_for P K U sc config b (m ∷ members) in
        rw bind_one-write (
          unfold write in
          elim (Result-cases (create_or_update P K U sc object w.server).0) [
            | inl (r, done) ↦ rw done refl
            | inr (e, failed) ↦ rw failed refl
          ])

    -- A write that went well marks the name.
    pub bind_one-ok :
        (r : Object P K U sc)
        → (create_or_update P K U sc (object_for P K U sc config b (m ∷ members)) w.server).0 ≡ ok r
        → let (active', w') = bind_one P K U sc config gm b active w in
          (active' ≡ r.name ∷ active)
          × (w'.server
              ≡ (create_or_update P K U sc (object_for P K U sc config b (m ∷ members)) w.server).1)
    bind_one-ok r done = rw bind_one-write (unfold write in (rw done refl, rw done refl))

    -- A write that failed marks nothing.
    pub bind_one-err :
        (e : P.Error)
        → (create_or_update P K U sc (object_for P K U sc config b (m ∷ members)) w.server).0
          ≡ err e
        → (bind_one P K U sc config gm b active w).0 ≡ active
    bind_one-err e failed = rw bind_one-write (unfold write in rw failed refl)
