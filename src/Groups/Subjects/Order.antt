-- ===== src/Groups/Subjects/Order.antt =====
-- The sort of pkg/groups/subjects.go: it rearranges, and orders by name.
use mathlib.Core.List.{Mem, Pairwise, Perm, mem-cons_self, mem-cons_of_mem}
use mathlib.Core.List.{Pairwise-singleton, forall_mem-cons}
use mathlib.Core.List.Perm
use rbacsync.Prelude.{
  ◌≡◌, sym, subst, ap₂, inl, inr, false, List, [], ◌∷◌, Bool-cases, Bool-eq-prop, str_lt_trans,
  str_lt_irrefl, str_lt_asymm, str_lt_antisymm,
}
use rbacsync.Api.{Subject}
use rbacsync.Groups.Subjects.{less, insert_sorted, sort_subjects}

-- No later subject is less than an earlier one.
abbrev pub IsSorted : List Subject → Type 0
IsSorted = Pairwise λ s t. less t s ≡ false

-- What stands in front of a sorted list.
abbrev IsBelow : Subject → List Subject → Type 0
IsBelow s l = (t : Subject) → Mem t l → less t s ≡ false

IsBelow-cons :
    (s : Subject) {t : Subject} {l : List Subject}
    → less t s ≡ false
    → IsBelow s l
    → IsBelow s (t ∷ l)
IsBelow-cons s p h = (forall_mem-cons (λ _. Bool-eq-prop)).1 (p, h)

IsBelow-head :
    (s : Subject) {t : Subject} {l : List Subject}
    → less t s ≡ false
    → IsSorted (t ∷ l)
    → IsBelow s (t ∷ l)
IsBelow-head s {t} p (Pairwise.cons h _) =
    IsBelow-cons s p λ u m. str_lt_trans u.name t.name s.name (h u m) p

insert_sorted-perm : (s : Subject) (l : List Subject) → Perm (insert_sorted s l) (s ∷ l)
unfolding insert_sorted
insert_sorted-perm s [] = Perm.rfl
insert_sorted-perm s (t ∷ ts) = elim (Bool-cases (less t s)) [
  | inl p ↦ rw p (Perm.trans (Perm.cons t (insert_sorted-perm s ts)) (Perm.swap s t ts))
  | inr n ↦ rw n Perm.rfl
]

insert_sorted-IsSorted :
    (s : Subject) {l : List Subject} → IsSorted l → IsSorted (insert_sorted s l)
unfolding insert_sorted
insert_sorted-IsSorted s Pairwise.nil = Pairwise-singleton _ s
insert_sorted-IsSorted s (Pairwise.cons {a = t} {l = ts} below rest) =
    elim (Bool-cases (less t s)) [
      | inl p ↦
          let under = IsBelow-cons t (str_lt_asymm t.name s.name p) below in
          rw p (
            Pairwise.cons (λ u m. under u ((Perm.mem_iff (insert_sorted-perm s ts)).0 m))
              (insert_sorted-IsSorted s rest))
      | inr n ↦
          let whole = Pairwise.cons below rest in
          rw n (Pairwise.cons (IsBelow-head s n whole) whole)
    ]

pub sort_subjects-perm : (l : List Subject) → Perm (sort_subjects l) l
unfolding sort_subjects
sort_subjects-perm [] = Perm.rfl
sort_subjects-perm (s ∷ l) =
    Perm.trans (insert_sorted-perm s (sort_subjects l)) (Perm.cons s (sort_subjects-perm l))

pub sort_subjects-IsSorted : (l : List Subject) → IsSorted (sort_subjects l)
unfolding sort_subjects
sort_subjects-IsSorted [] = Pairwise.nil
sort_subjects-IsSorted (s ∷ l) = insert_sorted-IsSorted s (sort_subjects-IsSorted l)

-- Different subjects have different names.
abbrev pub DistinctNames : List Subject → Type 0
DistinctNames l = (s t : Subject) → Mem s l → Mem t l → s.name ≡ t.name → s ≡ t

heads_eq :
    {s t : Subject} {l r : List Subject}
    → IsSorted (s ∷ l)
    → IsSorted (t ∷ r)
    → Perm (s ∷ l) (t ∷ r)
    → DistinctNames (s ∷ l)
    → s ≡ t
heads_eq {s} {t} sl sr p d =
    let t_in = (Perm.mem_iff p).1 mem-cons_self in
    d s t mem-cons_self t_in (
      str_lt_antisymm s.name t.name
        (IsBelow-head t (str_lt_irrefl t.name) sr s ((Perm.mem_iff p).0 mem-cons_self))
        (IsBelow-head s (str_lt_irrefl s.name) sl t t_in))

tails_perm : {s t : Subject} {l r : List Subject} → s ≡ t → Perm (s ∷ l) (t ∷ r) → Perm l r
tails_perm {s} {t} {l} {r} same p = Perm.cons_inv (subst (λ u. Perm (s ∷ l) (u ∷ r)) (sym same) p)

-- With different names there is one sorted arrangement.
pub sorted_unique :
    {l r : List Subject} → Perm l r → DistinctNames l → IsSorted l → IsSorted r → l ≡ r
sorted_unique p d Pairwise.nil sr = Perm.nil-eq p
sorted_unique p d (Pairwise.cons h sl) Pairwise.nil = Perm.eq-nil p
sorted_unique p d (Pairwise.cons {a = s} h sl) (Pairwise.cons k sr) =
    let same = heads_eq (Pairwise.cons h sl) (Pairwise.cons k sr) p d in
    ap₂ ◌∷◌ same (
      sorted_unique (tails_perm same p)
        (λ u v m n. d u v (mem-cons_of_mem s m) (mem-cons_of_mem s n)) sl sr)
