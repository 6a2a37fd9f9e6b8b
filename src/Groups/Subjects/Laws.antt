-- ===== src/Groups/Subjects/Laws.antt =====
-- What `normalize` promises: the same subjects, each once, ordered by name.
use mathlib.Core.List.{
  Mem, Nodup, Perm, Nodup-cons, Nodup-nil, perm_ext_iff_of_Nodup, perm_append_singleton, reverse,
  reverse_perm,
}
use mathlib.Core.List.Perm
use rbacsync.Prelude.{
  ◌≡◌, ◌≢◌, ◌∙◌, sym, ◌↔◌, inl, inr, List, [], ◌∷◌, arith, Bool-cases, contains, contains-iff_mem,
  contains-append, ◌||◌,
}
use rbacsync.Api.{Subject, subject_eq}
use rbacsync.Groups.Subjects.{MapOrder, IsOrder, add_key, add_all, normalize_uniq, normalize}
use rbacsync.Groups.Subjects.Order.{
  IsSorted, DistinctNames, sort_subjects-perm, sort_subjects-IsSorted, sorted_unique,
}

contains-add_all :
    (subjects uniq : List Subject) (t : Subject)
    → contains (add_all subjects uniq) t ≡ (contains uniq t || contains subjects t)
unfolding add_all
contains-add_all [] uniq t = ground arith
contains-add_all (s ∷ subjects) uniq t =
    ground (arith, contains-add_all subjects (add_key s uniq) t, contains-append uniq (s ∷ []) t)

add_key-Nodup : (s : Subject) (uniq : List Subject) → Nodup uniq → Nodup (add_key s uniq)
unfolding add_key
add_key-Nodup s uniq u = elim (Bool-cases (contains uniq s)) [
  | inl old ↦ rw old u
  | inr new ↦ rw new (
      (Perm.Nodup-iff (perm_append_singleton s uniq)).1
        (Nodup-cons.1 (λ m. cc (new, (contains-iff_mem uniq s).1 m), u)))
]

add_all-Nodup : (subjects uniq : List Subject) → Nodup uniq → Nodup (add_all subjects uniq)
unfolding add_all
add_all-Nodup [] uniq u = u
add_all-Nodup (s ∷ subjects) uniq u = add_all-Nodup subjects _ (add_key-Nodup s uniq u)

-- Each key once, and a key for each subject that was added.
pub uniq_lem :
    (subjects : List Subject)
    → Nodup (add_all subjects []) × ((t : Subject) → Mem t (add_all subjects []) ↔ Mem t subjects)
uniq_lem subjects = (
  add_all-Nodup subjects [] Nodup-nil,
  λ t.
      let same = contains-add_all subjects [] t in
      (
        λ m.
            (contains-iff_mem subjects t).0
              (sym same ∙ (contains-iff_mem (add_all subjects []) t).1 m),
        λ m.
            (contains-iff_mem (add_all subjects []) t).0 (same ∙ (contains-iff_mem subjects t).1 m),
      ),
)

module _ (o : MapOrder) (O : IsOrder o) where
  pub normalize_uniq-perm : (uniq : List Subject) → Perm (normalize_uniq o uniq) uniq
  unfolding normalize_uniq
  normalize_uniq-perm uniq = Perm.trans (sort_subjects-perm (o.keys uniq)) (O.keys-perm uniq)

  pub normalize_uniq-IsSorted : (uniq : List Subject) → IsSorted (normalize_uniq o uniq)
  unfolding normalize_uniq
  normalize_uniq-IsSorted uniq = sort_subjects-IsSorted (o.keys uniq)

  pub mem-normalize :
      (subjects : List Subject) (t : Subject) → Mem t (normalize o subjects) ↔ Mem t subjects
  unfolding normalize
  mem-normalize subjects t =
      let same = Perm.mem_iff (normalize_uniq-perm (add_all subjects [])) in
      let kept = (uniq_lem subjects).1 t in (λ m. kept.0 (same.0 m), λ m. same.1 (kept.1 m))

  -- For every list of subjects: `Normalize` returns the same subjects, lists none twice, and orders
  -- them by name.
  pub normalize_lem :
      (subjects : List Subject)
      → ((t : Subject) → Mem t (normalize o subjects) ↔ Mem t subjects)
        × Nodup (normalize o subjects)
        × IsSorted (normalize o subjects)
  unfolding normalize
  normalize_lem subjects = (
    mem-normalize subjects,
    (Perm.Nodup-iff (normalize_uniq-perm (add_all subjects []))).1 (uniq_lem subjects).0,
    normalize_uniq-IsSorted (add_all subjects []),
  )

-- If no two different subjects of a list share a name, then `Normalize` gives one result for all
-- lists with the same subjects, whatever the order in which Go walks through the map.
pub normalize_stable :
    (o p : MapOrder)
    → IsOrder o
    → IsOrder p
    → (xs ys : List Subject) → ((t : Subject) → Mem t xs ↔ Mem t ys)
    → DistinctNames xs
    → normalize o xs ≡ normalize p ys
normalize_stable o p O P xs ys same d =
    let (mx, ux, sx) = normalize_lem o O xs in
    let (my, uy, sy) = normalize_lem p P ys in
    sorted_unique
      ((perm_ext_iff_of_Nodup ux uy).1
        (λ t. (λ m. (my t).1 ((same t).0 ((mx t).0 m)), λ m. (mx t).1 ((same t).1 ((my t).0 m)))))
      (λ s t m n. d s t ((mx s).0 m) ((mx t).0 n)) sx sy

-- Two orders of walking.
abbrev pub forward : MapOrder
forward = record { keys = λ l. l; entries = λ d. d }

abbrev pub backward : MapOrder
backward = record { keys = reverse; entries = reverse }

pub forward-IsOrder : IsOrder forward
forward-IsOrder = record { keys-perm = λ l. Perm.rfl; entries-perm = λ d. Perm.rfl }

pub backward-IsOrder : IsOrder backward
backward-IsOrder = record { keys-perm = reverse_perm; entries-perm = reverse_perm }

-- Two different subjects of one name are returned in an order that depends on how Go walks through
-- the map: for every such pair there are two permitted orders with different results.
pub normalize_unstable :
    (s t : Subject)
    → s ≢ t
    → s.name ≡ t.name
    → normalize forward (s ∷ t ∷ []) ≢ normalize backward (s ∷ t ∷ [])
unfolding normalize
normalize_unstable s t ne same = ground arith
