-- ===== src/Controller/Objects/Granted.antt =====
-- Where the objects on the API server come from: what a handler may have written under a key.
use mathlib.Core.List.{Mem, mem-cons_self, mem-cons_of_mem, mem-append_left}
use rbacsync.Prelude.{
  String, string_eq, ◌≡◌, sym, ◌∙◌, ap, ◌⊎◌, inl, inr, true, Bool-cases, some, List, [], ◌∷◌, arith,
  contains,
}
use rbacsync.Api.{Subject, Binding, Config}
use rbacsync.Errors.{ErrorPackage, Result, Result-cases, ok, err}
use rbacsync.Groups.{Grouper}
use rbacsync.Kube.{Kube, Scope, scope_eq}
use rbacsync.Kube.Server.{Server, Key, same_key}
use rbacsync.Controller.Effects.{World}
use rbacsync.Controller.Bindings.{
  Object, bound_name, kind_is_valid, object_for, create_or_update, bind_one, bind_all,
}
use rbacsync.Controller.Bindings.Writes.{Wrote, create_or_update_lem, bind_one-server}
use rbacsync.Controller.Bindings.Loop.{target}
use rbacsync.Controller.Cleanup.{clean_up}
use rbacsync.Controller.Cleanup.Loop.{clean_all-some, same_key-eq}
use rbacsync.Controller.Objects.{selected, clean_up_lem, handled, handle_lem, bound}

module _ (P : ErrorPackage) (K : Kube P) (S : Server P K) (U : Type 0) (sc : Scope)
    (config : Config) (gm : Grouper P U) where
  -- The object is the one that a valid binding of the list stands for, with the members that the
  -- grouper names for its group, and there is one at least.
  pub record Granted (bindings : List Binding) (k : Key) (object : Object P K U sc) : Type 0 where
    pub binding : Binding
    pub outside : U
    pub first : Subject
    pub others : List Subject
    pub listed : Mem binding bindings
    pub valid : kind_is_valid sc binding.role_ref.kind ≡ true
    pub answered : (gm binding.group outside).0 ≡ ok (first ∷ others)
    pub placed : k ≡ target sc config (bound_name config binding)
    pub made : object ≡ S.stored (object_for P K U sc config binding (first ∷ others))

  -- What is under the key was there, or is granted.
  abbrev pub Explained : List Binding → Key → Object P K U sc → K.State → Type 0
  Explained bindings k object s = (S.get k s ≡ some object) ⊎ Granted bindings k object

  written-Explained :
      (b : Binding) (m : Subject) (members : List Subject) (u : U) (w : World P K U) (k : Key)
      (object : Object P K U sc)
      → kind_is_valid sc b.role_ref.kind ≡ true
      → (gm b.group u).0 ≡ ok (m ∷ members)
      → let made = object_for P K U sc config b (m ∷ members) in
        (r : Result P.Error (Object P K U sc) × K.State)
        → Wrote P K S U sc made w.server r
        → S.get k r.1 ≡ some object
        → Explained (b ∷ []) k object w.server
  unfolding object_for
  written-Explained b m members u w k object valid has (err e, t) same there =
      inl (sym (same k) ∙ there)
  written-Explained b m members u w k object valid has (ok x, t) (same, sets) there =
      elim (Bool-cases (same_key k (target sc config (bound_name config b)))) [
        | inr other ↦ inl (ground (arith, sets k))
        | inl here ↦ inr (record {
          binding = b;
          outside = u;
          first = m;
          others = members;
          listed = mem-cons_self;
          valid = valid;
          answered = has;
          placed = same_key-eq k _ here;
          made = ground (arith, sets k);
        })
      ]

  bind_one-Explained :
      (b : Binding) (active : List String) (w : World P K U) (k : Key) (object : Object P K U sc)
      → S.get k (bind_one P K U sc config gm b active w).1.server ≡ some object
      → Explained (b ∷ []) k object w.server
  unfolding bind_one
  bind_one-Explained b active w k object there =
      elim (Bool-cases (kind_is_valid sc b.role_ref.kind)) [
        | inr wrong ↦ inl (ground arith)
        | inl valid ↦ elim (Result-cases (gm b.group w.upstream).0) [
          | inr (e, failed) ↦ inl (ground arith)
          | inl ([], empty) ↦ inl (ground arith)
          | inl (m ∷ members, has) ↦ elim (Bool-cases (contains active (bound_name config b))) [
            | inl seen ↦ inl (ground arith)
            | inr fresh ↦
                let made = object_for P K U sc config b (m ∷ members) in
                written-Explained b m members w.upstream w k object valid has
                  (create_or_update P K U sc made w.server)
                  (create_or_update_lem P K S U sc made w.server)
                  (ap (S.get k) (
                      sym (bind_one-server P K U sc config gm b m members active w valid has fresh))
                    ∙ there)
          ]
        ]
      ]

  widen :
      {bs cs : List Binding} {k : Key} {object : Object P K U sc}
      → ((b : Binding) → Mem b bs → Mem b cs)
      → Granted bs k object
      → Granted cs k object
  widen wider g = record {
    binding = g.binding;
    outside = g.outside;
    first = g.first;
    others = g.others;
    listed = wider g.binding g.listed;
    valid = g.valid;
    answered = g.answered;
    placed = g.placed;
    made = g.made;
  }

  bind_all-Explained :
      (bindings : List Binding) (active : List String) (w : World P K U) (k : Key)
      (object : Object P K U sc)
      → S.get k (bind_all P K U sc config gm bindings active w).1.server ≡ some object
      → Explained bindings k object w.server
  unfolding bind_all
  bind_all-Explained [] active w k object there = inl there
  bind_all-Explained (b ∷ bindings) active w k object there =
      let (active', w') = bind_one P K U sc config gm b active w in
      elim (bind_all-Explained bindings active' w' k object there) [
        | inr later ↦ inr (widen (λ c. mem-cons_of_mem b) later)
        | inl early ↦ elim (bind_one-Explained b active w k object early) [
          | inl old ↦ inl old
          | inr now ↦ inr (widen (λ c. mem-append_left bindings) now)
        ]
      ]

  clean_up-some :
      (active : List String) (w : World P K U) (k : Key) (object : Object P K U sc)
      → S.get k (clean_up P K U sc config active w).1.server ≡ some object
      → S.get k w.server ≡ some object
  clean_up-some active w k object there =
      elim (Result-cases (selected P K S U sc config w.server)) [
        | inl (objects, p) ↦ clean_all-some P K S U sc config active objects w k object (
            ap (λ r. S.get k r.1.server)
              (sym ((clean_up_lem P K S U sc config active w).1 objects p))
            ∙ there)
        | inr (e, p) ↦
            ap (λ v. S.get k v.server) (sym ((clean_up_lem P K S U sc config active w).0 e p))
            ∙ there
      ]

  -- Every object that is there after a handler has run was there before under its key, unchanged;
  -- or it is the object of a valid binding of the config, under that binding's name, with exactly
  -- the members that the grouper named for its group, at least one.
  pub handle-granted :
      (w : World P K U) (k : Key) (object : Object P K U sc)
      → S.get k (handled P K S U sc config gm w).server ≡ some object
      → (S.get k w.server ≡ some object) ⊎ Granted config.spec.bindings k object
  handle-granted w k object there =
      let (active, v) = bound P K S U sc config gm w in
      bind_all-Explained config.spec.bindings [] w k object (
        clean_up-some active v k object
          (ap (λ r. S.get k r.1.server) (sym (handle_lem P K S U sc config gm w)) ∙ there))
