-- ===== src/Controller/Objects/Settled.antt =====
-- A handler settles the objects of its config: each becomes what the bindings ask for.
use rbacsync.Prelude.{
  String, string_eq, ◌≡◌, refl, sym, ◌∙◌, ap, subst, inl, inr, Bool, Bool-cases, ◌&&◌, not, Option,
  none, some, [], ◌∷◌, arith, if◌then◌else◌,
}
use rbacsync.Api.{Config}
use rbacsync.Errors.{ErrorPackage}
use rbacsync.Groups.{Grouper, Reply}
use rbacsync.Kube.{Kube, Scope, scope_eq}
use rbacsync.Kube.Server.{Server, Key, same_key}
use rbacsync.Controller.Effects.{World}
use rbacsync.Controller.Bindings.{Object, object_for}
use rbacsync.Controller.Bindings.Loop.{target}
use rbacsync.Controller.Cleanup.{clean_all, handle}
use rbacsync.Controller.Cleanup.Loop.{same_key-eq}
use rbacsync.Controller.Objects.Policy.{Policy, Heeds}
use rbacsync.Controller.Objects.{bound, handled, clean_up_lem, handle_lem, handle-elsewhere}
use rbacsync.Controller.Objects.Shown.{owns, IsCurrent, clean_all-shown}
use rbacsync.Controller.Objects.Desired.{
  Fate, stands, kept, unwanted, fate, marks, placed, Answers, bind_all-fate,
}

module _ (P : ErrorPackage) (K : Kube P) (S : Server P K) (U : Type 0) (sc : Scope)
    (config : Config) where
  -- What becomes of the object of a name, where the API server lets one be deleted or not. An
  -- unwanted one is deleted, if it is the config's own.
  unfoldable pub settle : Bool → Fate → Option (Object P K U sc) → Option (Object P K U sc)
  settle lets (stands b m members) before =
      some (S.stored (object_for P K U sc config b (m ∷ members)))
  settle lets kept before = before
  settle lets unwanted before = if owns P K S U sc config before && lets then none else before

  module _ (gm : Grouper P U) (answers : String → Reply P U) (policy : Policy P K) where
    -- The bindings of the config decide.
    abbrev pub settled : String → Option (Object P K U sc) → Option (Object P K U sc)
    settled n before =
        settle (policy.removes n) (fate P K S U sc config answers policy config.spec.bindings n)
          before

    -- What a handler relies on: the grouper's answers do not change, the API server accepts and
    -- refuses the writes and deletes that the policy says, and after the loop over the bindings the
    -- lister shows what is there.
    pub record IsCalm (w : World P K U) : Type 0 where
      pub same : Answers P K S U sc config answers policy gm
      pub heeds : Heeds P K S U sc config gm policy
      pub current : IsCurrent P K S U sc config (bound P K S U sc config gm w).1.server

    calm_lem :
        (w : World P K U) (c : IsCalm w)
        → handle P K U sc config gm w ≡ (
          none,
          clean_all P K U sc config
              (bound P K S U sc config gm w).0
              c.current.objects
              (bound P K S U sc config gm w).1,
        )
    calm_lem w c =
        handle_lem P K S U sc config gm w
        ∙ (clean_up_lem P K S U sc config _ _).1 c.current.objects c.current.listed

    swept-settle :
        (f : Fate) (lets marked visible : Bool) (before between : Option (Object P K U sc))
        → marked ≡ marks f
        → between ≡ placed P K S U sc config answers policy f before
        → visible ≡ owns P K S U sc config between
        → (if not marked && (visible && lets) then none else between) ≡ settle lets f before
    unfolding settle
    swept-settle (stands b m members) lets marked visible before between p q r = ground arith
    swept-settle kept lets marked visible before between p q r = ground arith
    swept-settle unwanted lets marked visible before between p q r = rw (p, r, q)

    -- Let the answers of the grouper not change, let the API server accept some objects, refuse to
    -- write the others, and refuse to delete under some names, whenever it is asked, and let the
    -- lister be current after the loop over the bindings. Then the handler returns no error and
    -- settles every name: the first valid binding of the name decides whose group has members with
    -- whom its object is accepted, or has members that are unknown. In the one case that object is
    -- there, with exactly these members; in the other what was there stays. If no binding decides,
    -- an object of the config's own is gone unless its delete is refused, and another one stays.
    pub handle-settles :
        (w : World P K U) (n : String)
        → IsCalm w
        → ((handle P K U sc config gm w).0 ≡ none)
          × (S.get (target sc config n) (handled P K S U sc config gm w).server
              ≡ settled n (S.get (target sc config n) w.server))
    handle-settles w n c =
        let (active, v) = bound P K S U sc config gm w in
        let k = target sc config n in
        let (marked, there) =
          bind_all-fate P K S U sc config answers policy gm config.spec.bindings n [] w c.same
            c.heeds refl in
        (
          ap (λ r. r.0) (calm_lem w c),
          ap (λ r. S.get k r.1.server) (calm_lem w c)
              ∙ clean_all-shown P K S U sc config active c.current.objects v n (policy.removes n)
                  (c.heeds.deletes n) (c.heeds.refuses n)
              ∙ swept-settle (fate P K S U sc config answers policy config.spec.bindings n) _ _ _ _
                  _ marked there (c.current.shown n),
        )

    settle_twice :
        (lets : Bool) (f : Fate) (before : Option (Object P K U sc))
        → settle lets f (settle lets f before) ≡ settle lets f before
    unfolding settle
    settle_twice lets (stands b m members) before = refl
    settle_twice lets kept before = refl
    settle_twice lets unwanted before = elim (Bool-cases (owns P K S U sc config before && lets)) [
      | inl own ↦ rw own
      | inr other ↦ rw other (rw other)
    ]

    named-again :
        (w : World P K U) (n : String)
        → IsCalm w
        → IsCalm (handled P K S U sc config gm w)
        → S.get
            (target sc config n)
            (handled P K S U sc config gm (handled P K S U sc config gm w)).server
          ≡ S.get (target sc config n) (handled P K S U sc config gm w).server
    named-again w n c d =
        let once = (handle-settles w n c).1 in
        (handle-settles _ n d).1 ∙ ap (settled n) once ∙ settle_twice _ _ _ ∙ sym once

    -- If the conditions under which a handler settles every name hold for a run and for the one after
    -- it, then the second changes no object at all.
    pub handle-handle :
        (w : World P K U) (k : Key)
        → IsCalm w
        → IsCalm (handled P K S U sc config gm w)
        → S.get k (handled P K S U sc config gm (handled P K S U sc config gm w)).server
          ≡ S.get k (handled P K S U sc config gm w).server
    handle-handle w k c d =
        let v = handled P K S U sc config gm w in
        elim (Bool-cases (same_key k (target sc config k.name))) [
          | inl own ↦
              subst (λ j. S.get j (handled P K S U sc config gm v).server ≡ S.get j v.server)
                (sym (same_key-eq k _ own)) (named-again w k.name c d)
          | inr other ↦ handle-elsewhere P K S U sc config gm v k (λ n. ground arith)
        ]
