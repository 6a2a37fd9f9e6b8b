-- ===== src/Controller/Resolve/Entitled.antt =====
-- Who may become a member of a group that a config resolves to.
use mathlib.Core.List.{Mem, mem-append, not-mem-nil}
use mathlib.Core.Logic.{◌∨₁◌, ∨₁_prop}
use mathlib.Core.Logic.Or
use rbacsync.Prelude.{
  String, string_eq, ◌≡◌, refl, sym, ◌∙◌, subst, inl, inr, Bool-cases, Option, none, some, List, [],
  ◌∷◌, ◌++◌, arith,
}
use rbacsync.Prelude.Dict.{lookup}
use rbacsync.Api.{Subject, subject_eq, Membership}
use rbacsync.Errors.{ErrorPackage, Result, ok, err, is_not_found}
use rbacsync.Groups.{Grouper, Reply}
use rbacsync.Groups.Subjects.{MapOrder, IsOrder, normalize}
use rbacsync.Groups.Subjects.Laws.{mem-normalize}
use rbacsync.Groups.GroupMap.{GroupMap, members}
use rbacsync.Groups.Merged.Laws.{replies, judge, prefix, answer, merged_members_lem}
use rbacsync.Controller.Resolve.{static_groups, resolve_groups}
use rbacsync.Controller.Resolve.Laws.{subjects_in, entry_for, lookup-static_groups}

module _ (P : ErrorPackage) (U : Type 0) where
  -- The answer is a list with the subject.
  abbrev pub Says : Reply P U → Subject → Type 0
  Says r t = (l : List Subject) × (r ≡ ok l) × Mem t l

  -- One of the answers is.
  abbrev SomeSays : List (Reply P U) → Subject → Type 0
  SomeSays [] t = ⊥
  SomeSays (r ∷ rs) t = Says r t ∨₁ SomeSays rs t

  prefix-ok :
      (ss : List Subject) (r : Reply P U) (xs : List Subject)
      → prefix P U ss r ≡ ok xs
      → (l : List Subject) × (r ≡ ok l) × (xs ≡ ss ++ l)
  unfolding prefix
  prefix-ok ss (ok l) xs h = (l, refl, ground arith)
  prefix-ok ss (err e) xs h = cc

  judge-SomeSays :
      (rs : List (Reply P U)) (xs : List Subject) (t : Subject)
      → judge P U rs ≡ ok xs
      → Mem t xs
      → SomeSays rs t
  unfolding judge
  judge-SomeSays [] xs t h m =
      let none_found : xs ≡ [] = ground arith in not-mem-nil (subst (Mem t) none_found m)
  judge-SomeSays (ok ss ∷ rs) xs t h m =
      let (l, e, split) = prefix-ok ss (judge P U rs) xs h in
      Or.elim ∨₁_prop (mem-append.0 (subst (Mem t) split m)) (λ here. Or.inl (ss, refl, here))
        (λ later. Or.inr (judge-SomeSays rs l t e later))
  judge-SomeSays (err e ∷ rs) xs t h m = elim (Bool-cases (is_not_found P e)) [
    | inl absent ↦ Or.inr (judge-SomeSays rs xs t (ground arith) m)
    | inr failed ↦ absurd (ground arith)
  ]

  -- The controller's grouper, if there is one, names the subject.
  abbrev pub Names : Option (Grouper P U) → String → U → Subject → Type 0
  Names none group u t = ⊥
  Names (some grouper) group u t = Says (grouper group u).0 t

  module _ (o : MapOrder) (O : IsOrder o) where
    answer-Mem :
        (group : String) (r : Result P.Error (List Subject)) (l : List Subject)
        → answer P U o group r ≡ ok l
        → (xs : List Subject) × (r ≡ ok xs) × (l ≡ normalize o xs)
    unfolding answer
    answer-Mem group (ok []) l h = cc
    answer-Mem group (ok (x ∷ xs)) l h = (x ∷ xs, refl, ground arith)
    answer-Mem group (err e) l h = cc

    entry-ok :
        (gm : GroupMap) (group : String) (xs : List Subject) (u : U) (l : List Subject)
        → lookup group gm ≡ entry_for o xs
        → (members P U gm group u).0 ≡ ok l
        → l ≡ normalize o xs
    unfolding members
    entry-ok gm group [] u l h said = ground arith
    entry-ok gm group (x ∷ xs) u l h said = ground arith

    static-Mem :
        (ms : List Membership) (group : String) (u : U) (t : Subject)
        → Says (members P U (static_groups o ms) group u).0 t
        → Mem t (subjects_in group ms)
    static-Mem ms group u t (l, said, m) =
        let xs = subjects_in group ms in
        let same =
          entry-ok (static_groups o ms) group xs u l (lookup-static_groups o O ms group) said in
        (mem-normalize o O xs t).0 (subst (Mem t) same m)

    -- A member of a group that a config resolves to, with a grouper or without one, is a subject of
    -- one of the config's memberships of that group, or one that the grouper names for it.
    pub resolve_groups-Mem :
        (grouper : Option (Grouper P U)) (ms : List Membership) (group : String) (u : U)
        (l : List Subject) (t : Subject)
        → (resolve_groups o P U grouper ms group u).0 ≡ ok l
        → Mem t l
        → Mem t (subjects_in group ms) ∨₁ Names grouper group u t
    unfolding resolve_groups replies members
    resolve_groups-Mem none ms group u l t said m = Or.inl (static-Mem ms group u t (l, said, m))
    resolve_groups-Mem (some grouper) ms group u l t said m =
        let sources = members P U (static_groups o ms) ∷ grouper ∷ [] in
        let (xs, e, same) =
          answer-Mem group (judge P U (replies P U sources group u)) l
            (sym (merged_members_lem P U o sources group u) ∙ said) in
        let named = (mem-normalize o O xs t).0 (subst (Mem t) same m) in
        Or.elim ∨₁_prop (judge-SomeSays (replies P U sources group u) xs t e named)
          (λ declared. Or.inl (static-Mem ms group u t declared))
          (λ later. Or.elim ∨₁_prop later (λ asked. Or.inr asked) (λ none_left. absurd none_left))

    -- The members of a group that a config resolves to are a normalized list.
    pub resolve_groups-normalize :
        (grouper : Option (Grouper P U)) (ms : List Membership) (group : String) (u : U)
        (l : List Subject)
        → (resolve_groups o P U grouper ms group u).0 ≡ ok l
        → (xs : List Subject) × (l ≡ normalize o xs)
    unfolding resolve_groups
    resolve_groups-normalize none ms group u l said =
        let xs = subjects_in group ms in
        (xs, entry-ok (static_groups o ms) group xs u l (lookup-static_groups o O ms group) said)
    resolve_groups-normalize (some grouper) ms group u l said =
        let sources = members P U (static_groups o ms) ∷ grouper ∷ [] in
        let (xs, e, same) =
          answer-Mem group (judge P U (replies P U sources group u)) l
            (sym (merged_members_lem P U o sources group u) ∙ said) in
        (xs, same)
