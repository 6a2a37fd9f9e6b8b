-- ===== src/Controller/Objects/Desired.antt =====
-- What the bindings of a config ask for, name by name, and what the loop over the bindings makes of
-- it.
use rbacsync.Prelude.{
  String, string_eq, ◌≡◌, refl, ◌∙◌, ap, subst, inl, inr, ◌==◌, Bool, true, false, Bool-cases, ◌&&◌,
  not, Option, some, List, [], ◌∷◌, arith, contains, if◌then◌else◌,
}
use rbacsync.Api.{Subject, Binding, Config}
use rbacsync.Errors.{ErrorPackage, ok, err, is_not_found, is_unknown_memberships}
use rbacsync.Groups.{Grouper, Reply}
use rbacsync.Kube.{Kube, Scope}
use rbacsync.Kube.Server.{Server}
use rbacsync.Controller.Effects.{World}
use rbacsync.Controller.Bindings.{
  Object, bound_name, kind_is_valid, object_for, create_or_update, bind_one, bind_all,
}
use rbacsync.Controller.Bindings.Writes.{Wrote, create_or_update_lem, bind_one-server, bind_one-err}
use rbacsync.Controller.Bindings.Loop.{
  target, bound_names, bind_all-marks, bind_all-kept, bind_all-frame, bind_all-unmarked,
}
use rbacsync.Controller.Objects.Bound.{write-done}
use rbacsync.Controller.Objects.Policy.{Policy, Heeds}

-- What is to be of the object of a name: it stands for a binding whose group has members, it is kept
-- as it is since the members are unknown, or it is unwanted.
pub data Fate : Type 0 where
  stands : Binding → Subject → List Subject → Fate
  kept : Fate
  unwanted : Fate

abbrev first : Fate → Fate → Fate
first (stands b m members) later = stands b m members
first kept later = kept
first unwanted later = later

abbrev pub marks : Fate → Bool
marks (stands b m members) = true
marks kept = true
marks unwanted = false

module _ (P : ErrorPackage) (K : Kube P) (S : Server P K) (U : Type 0) (sc : Scope)
    (config : Config) (answers : String → Reply P U) (policy : Policy P K) where
  abbrev verdict : Binding → Reply P U → Fate
  verdict b (ok []) = unwanted
  verdict b (ok (m ∷ members)) =
      if policy.accepts (object_for P K U sc config b (m ∷ members))
      then stands b m members
      else unwanted
  verdict b (err e) =
      if not (is_not_found P e) && is_unknown_memberships P e then kept else unwanted

  abbrev own_fate : Binding → String → Fate
  own_fate b n =
      if kind_is_valid sc b.role_ref.kind && (bound_name config b == n)
      then verdict b (answers b.group)
      else unwanted

  -- The first valid binding of the name decides whose group has members with whom the API server
  -- accepts its object, or has members that are unknown.
  unfoldable pub fate : List Binding → String → Fate
  fate [] n = unwanted
  fate (b ∷ bindings) n = first (own_fate b n) (fate bindings n)

  abbrev pub placed : Fate → Option (Object P K U sc) → Option (Object P K U sc)
  placed (stands b m members) before = some (S.stored (object_for P K U sc config b (m ∷ members)))
  placed kept before = before
  placed unwanted before = before

  module _ (gm : Grouper P U) where
    abbrev pub Answers : Type 0
    Answers = (group : String) (u : U) → (gm group u).0 ≡ answers group

    -- The marked names and the world after the loop.
    abbrev after : List Binding → List String → World P K U → List String × World P K U
    after = bind_all P K U sc config gm

    -- The name is marked if and only if it is not unwanted, and its object is placed.
    abbrev Placed : Fate → String → World P K U → List String × World P K U → Type 0
    Placed f n w (active, v) =
        (contains active n ≡ marks f)
        × (S.get (target sc config n) v.server ≡ placed f (S.get (target sc config n) w.server))

    write-refused :
        (b : Binding) (m : Subject) (members : List Subject) (active : List String)
        (w : World P K U)
        → kind_is_valid sc b.role_ref.kind ≡ true
        → (gm b.group w.upstream).0 ≡ ok (m ∷ members)
        → contains active (bound_name config b) ≡ false
        → let made = object_for P K U sc config b (m ∷ members) in
          ((s : K.State) → (e : P.Error) × ((create_or_update P K U sc made s).0 ≡ err e))
          → Placed unwanted (bound_name config b) w (bind_one P K U sc config gm b active w)
    write-refused b m members active w valid has idle rejects =
        let made = object_for P K U sc config b (m ∷ members) in
        let (e, failed) = rejects w.server in
        let t = (create_or_update P K U sc made w.server).1 in
        let k = target sc config (bound_name config b) in
        let same =
          subst (λ y. Wrote P K S U sc made w.server (y, t)) failed
            (create_or_update_lem P K S U sc made w.server) in
        (
          rw (bind_one-err P K U sc config gm b m members active w valid has idle e failed) idle,
          ap (S.get k) (bind_one-server P K U sc config gm b m members active w valid has idle)
              ∙ same k,
        )

    -- A round for a valid binding of the name, by the answer for its group.
    one-answer :
        (b : Binding) (r : Reply P U) (active : List String) (w : World P K U)
        → ((u : U) → (gm b.group u).0 ≡ r)
        → Heeds P K S U sc config gm policy
        → kind_is_valid sc b.role_ref.kind ≡ true
        → contains active (bound_name config b) ≡ false
        → Placed (verdict b r) (bound_name config b) w (bind_one P K U sc config gm b active w)
    unfolding bind_one
    one-answer b (ok []) active w same heeds valid idle =
        let eq = same w.upstream in (ground arith, ground arith)
    one-answer b (ok (m ∷ members)) active w same heeds valid idle =
        let made = object_for P K U sc config b (m ∷ members) in
        elim (Bool-cases (policy.accepts made)) [
          | inl accepted ↦ rw accepted (
              write-done P K S U sc config gm b m members active w valid same idle
                (heeds.writes made accepted))
          | inr rejected ↦ rw rejected (
              write-refused b m members active w valid (same w.upstream) idle
                (heeds.rejects made rejected))
        ]
    one-answer b (err e) active w same heeds valid idle =
        let eq = same w.upstream in (ground arith, ground arith)

    -- A round for a binding that is not valid, or of another name.
    one-other :
        (b : Binding) (n : String) (active : List String) (w : World P K U)
        → contains (bound_names sc config (b ∷ [])) n ≡ false
        → contains active n ≡ false
        → Placed unwanted n w (bind_one P K U sc config gm b active w)
    unfolding bind_all
    one-other b n active w other idle = (
      bind_all-unmarked P K S U sc config gm (b ∷ []) active w n idle other,
      bind_all-frame P K S U sc config gm (b ∷ []) active w (target sc config n)
          (λ m h. ground arith),
    )

    one-fate :
        (b : Binding) (n : String) (active : List String) (w : World P K U)
        → Answers
        → Heeds P K S U sc config gm policy
        → contains active n ≡ false
        → Placed (own_fate b n) n w (bind_one P K U sc config gm b active w)
    unfolding bound_names
    one-fate b n active w same heeds idle = elim (Bool-cases (kind_is_valid sc b.role_ref.kind)) [
      | inr invalid ↦ rw invalid (one-other b n active w (rw invalid) idle)
      | inl valid ↦ elim (Bool-cases (bound_name config b == n)) [
        | inr other ↦ rw (valid, other) (one-other b n active w (rw valid (ground arith)) idle)
        | inl named ↦
            let eq : bound_name config b ≡ n = ground arith in
            let self : (bound_name config b == bound_name config b) ≡ true = ground arith in
            subst (λ m. Placed (own_fate b m) m w (bind_one P K U sc config gm b active w)) eq
              (rw (valid, self)
                (one-answer b (answers b.group) active w (same b.group) heeds valid (rw eq idle)))
      ]
    ]

    -- The rounds after one that decides leave the name alone.
    then-fate :
        (f later : Fate) (bindings : List Binding) (n : String) (active : List String)
        (w v : World P K U)
        → Placed f n w (active, v)
        → (contains active n ≡ false → Placed later n v (after bindings active v))
        → Placed (first f later) n w (after bindings active v)
    then-fate (stands b m members) later bindings n active w v (marked, there) rest = (
      bind_all-marks P K S U sc config gm bindings active v n marked,
      bind_all-kept P K S U sc config gm bindings active v n marked ∙ there,
    )
    then-fate kept later bindings n active w v (marked, there) rest = (
      bind_all-marks P K S U sc config gm bindings active v n marked,
      bind_all-kept P K S U sc config gm bindings active v n marked ∙ there,
    )
    then-fate unwanted later bindings n active w v (idle, there) rest =
        let (m, t) = rest idle in (m, t ∙ ap (placed later) there)

    -- The loop places every object as its fate says.
    pub bind_all-fate :
        (bindings : List Binding) (n : String) (active : List String) (w : World P K U)
        → Answers
        → Heeds P K S U sc config gm policy
        → contains active n ≡ false
        → Placed (fate bindings n) n w (after bindings active w)
    unfolding bind_all fate
    bind_all-fate [] n active w same heeds idle = (idle, refl)
    bind_all-fate (b ∷ bindings) n active w same heeds idle =
        let (active', w') = bind_one P K U sc config gm b active w in
        then-fate (own_fate b n) (fate bindings n) bindings n active' w w'
          (one-fate b n active w same heeds idle)
          (λ idle'. bind_all-fate bindings n active' w' same heeds idle')
