-- ===== src/Controller/Resolve/Laws.antt =====
-- What the groups of a config resolve to.
use mathlib.Core.List.{Mem, mem-append, mem-cons_self, not-mem-nil, append_assoc, append-nil}
use mathlib.Core.Logic.{∨₁_prop}
use mathlib.Core.Logic.Or
use rbacsync.Prelude.{
  String, string_eq, ◌≡◌, ◌≢◌, refl, sym, ◌∙◌, ap, subst, Option, none, some, List, [], ◌∷◌, ◌++◌,
  arith, ◌==◌, if◌then◌else◌,
}
use rbacsync.Prelude.Dict.{lookup, insert, lookup-insert, insert-UniqueKeys, UniqueKeys}
use rbacsync.Api.{Subject, subject_eq, Membership}
use rbacsync.Groups.Subjects.{MapOrder, IsOrder, normalize}
use rbacsync.Groups.GroupMap.{GroupMap, subjects_of}
use rbacsync.Groups.GroupMap.Laws.{entries-Agree, written}
use rbacsync.Controller.Resolve.{add_subjects, add_memberships, normalize_loop, static_groups}

-- The subjects of all memberships of a group, in the order of the config.
unfoldable pub subjects_in : String → List Membership → List Subject
subjects_in group [] = []
subjects_in group (m ∷ ms) =
    let rest = subjects_in group ms in if group == m.group then m.subjects ++ rest else rest

-- The entry of a group after subjects were appended to it: without any it is as before.
grown : Option (List Subject) → List Subject → Option (List Subject)
grown old [] = old
grown none (s ∷ ss) = some (s ∷ ss)
grown (some l) (s ∷ ss) = some (l ++ s ∷ ss)

grown-grown :
    (old : Option (List Subject)) (xs ys : List Subject)
    → grown (grown old xs) ys ≡ grown old (xs ++ ys)
unfolding grown
grown-grown old [] ys = refl
grown-grown none (x ∷ xs) [] = rw append-nil
grown-grown none (x ∷ xs) (y ∷ ys) = refl
grown-grown (some l) (x ∷ xs) [] = rw append-nil
grown-grown (some l) (x ∷ xs) (y ∷ ys) = rw append_assoc

grown-one :
    (gm : GroupMap) (group : String) (s : Subject)
    → some (subjects_of gm group ++ s ∷ []) ≡ grown (lookup group gm) (s ∷ [])
unfolding subjects_of grown
grown-one gm group s = ground arith

grown-nil : (old : Option (List Subject)) → grown old [] ≡ old
unfolding grown
grown-nil none = refl
grown-nil (some l) = refl

lookup-add_subjects :
    (group : String) (ss : List Subject) (gm : GroupMap) (g : String)
    → lookup g (add_subjects group ss gm)
      ≡ (if g == group then grown (lookup g gm) ss else lookup g gm)
unfolding add_subjects
lookup-add_subjects group [] gm g = ground (arith, grown-nil (lookup g gm))
lookup-add_subjects group (s ∷ ss) gm g =
    let l = subjects_of gm group ++ s ∷ [] in
    lookup-add_subjects group ss (insert group l gm) g
    ∙ ground (
      arith,
      lookup-insert g group l gm,
      grown-one gm group s,
      grown-grown (lookup group gm) (s ∷ []) ss,
    )

lookup-add_memberships :
    (ms : List Membership) (gm : GroupMap) (g : String)
    → lookup g (add_memberships ms gm) ≡ grown (lookup g gm) (subjects_in g ms)
unfolding add_memberships subjects_in
lookup-add_memberships [] gm g = sym (grown-nil (lookup g gm))
lookup-add_memberships (m ∷ ms) gm g =
    let gm' = add_subjects m.group m.subjects gm in
    ground (
      arith,
      lookup-add_memberships ms gm' g,
      lookup-add_subjects m.group m.subjects gm g,
      grown-grown (lookup g gm) m.subjects (subjects_in g ms),
    )

add_subjects-UniqueKeys :
    (group : String) (ss : List Subject) (gm : GroupMap)
    → UniqueKeys gm
    → UniqueKeys (add_subjects group ss gm)
unfolding add_subjects
add_subjects-UniqueKeys group [] gm u = u
add_subjects-UniqueKeys group (s ∷ ss) gm u =
    add_subjects-UniqueKeys group ss _ (insert-UniqueKeys group _ gm u)

add_memberships-UniqueKeys :
    (ms : List Membership) (gm : GroupMap) → UniqueKeys gm → UniqueKeys (add_memberships ms gm)
unfolding add_memberships
add_memberships-UniqueKeys [] gm u = u
add_memberships-UniqueKeys (m ∷ ms) gm u =
    add_memberships-UniqueKeys ms _ (add_subjects-UniqueKeys m.group m.subjects gm u)

pub mem-append_cong :
    {xs ys : List Subject} (l : List Subject)
    → ((t : Subject) → Mem t xs → Mem t ys)
    → (t : Subject) → Mem t (xs ++ l)
    → Mem t (ys ++ l)
mem-append_cong l h t m =
    mem-append.1 (Or.elim ∨₁_prop (mem-append.0 m) (λ a. Or.inl (h t a)) (λ b. Or.inr b))

pub nonempty : {xs ys : List Subject} → ((t : Subject) → Mem t ys → Mem t xs) → ys ≢ [] → xs ≢ []
nonempty {ys = []} h ne = absurd (ne refl)
nonempty {ys = y ∷ ys} h ne = λ e. not-mem-nil (subst (λ l. Mem y l) e (h y mem-cons_self))

module _ (o : MapOrder) where
  lookup-normalize_loop :
      (m gm : GroupMap) (g : String)
      → UniqueKeys m
      → lookup g (normalize_loop o m gm) ≡ written (normalize o) (lookup g m) (lookup g gm)
  unfolding normalize_loop lookup
  lookup-normalize_loop [] gm g u = refl
  lookup-normalize_loop ((j, ss) ∷ m) gm g (fresh, u) = ground (
    arith,
    lookup-normalize_loop m (insert j (normalize o ss) gm) g u,
    lookup-insert g j (normalize o ss) gm,
  )

  -- A group of which the memberships name no subject has no entry.
  abbrev pub entry_for : List Subject → Option (List Subject)
  entry_for [] = none
  entry_for (s ∷ ss) = some (normalize o (s ∷ ss))

  entry_lem :
      (ss : List Subject) → written (normalize o) (grown none ss) (grown none ss) ≡ entry_for ss
  unfolding grown
  entry_lem [] = refl
  entry_lem (s ∷ ss) = refl

  -- For every group: if the memberships name a subject for it, its entry is the normalized list of
  -- all of them, in whatever order Go walks through the map. If not, it has no entry.
  pub lookup-static_groups :
      IsOrder o
      → (ms : List Membership) (g : String)
      → lookup g (static_groups o ms) ≡ entry_for (subjects_in g ms)
  unfolding static_groups lookup
  lookup-static_groups O ms g =
      let gm = add_memberships ms [] in
      let u = add_memberships-UniqueKeys ms [] tt in
      let (ue, same) = entries-Agree o O gm u in
      lookup-normalize_loop (o.entries gm) gm g ue
      ∙ ap (λ e. written (normalize o) e (lookup g gm)) (same g)
      ∙ ap (λ e. written (normalize o) e e) (lookup-add_memberships ms [] g)
      ∙ entry_lem (subjects_in g ms)
