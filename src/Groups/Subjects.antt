-- ===== src/Groups/Subjects.antt =====
-- pkg/groups/subjects.go. A set of subjects, `map[rbacv1.Subject]struct{}`, is the list of its keys.
-- The order in which Go walks through a map is unspecified: it is the parameter `MapOrder`.
pub mod Order
pub mod Laws
use mathlib.Core.List.{Perm}
use rbacsync.Prelude.{String, Bool, List, [], ◌∷◌, ◌++◌, contains, if◌then◌else◌, str_lt}
use rbacsync.Prelude.Dict.{Dict}
use rbacsync.Api.{Subject, subject_eq}

-- What `range` makes of the keys of a set, and of the entries of a map of groups.
pub record MapOrder : Type 0 where
  pub keys : List Subject → List Subject
  pub entries : Dict String (List Subject) → Dict String (List Subject)

-- Go walks through each entry once.
pub record IsOrder (o : MapOrder) : Type 0 where
  pub keys-perm : (l : List Subject) → Perm (o.keys l) l
  pub entries-perm : (d : Dict String (List Subject)) → Perm (o.entries d) d

-- `uniq[subject] = struct{}{}`
add_key : Subject → List Subject → List Subject
add_key s uniq = if contains uniq s then uniq else uniq ++ s ∷ []

-- The loop that fills `uniq`.
unfoldable pub add_all : List Subject → List Subject → List Subject
unfolding add_key
add_all [] uniq = uniq
add_all (s ∷ subjects) uniq = add_all subjects (add_key s uniq)

-- The function handed to `sort.SliceStable`.
abbrev pub less : Subject → Subject → Bool
less s t = str_lt s.name t.name

-- A subject goes in front of the first that is not less: equals stay in their order.
insert_sorted : Subject → List Subject → List Subject
insert_sorted s [] = s ∷ []
insert_sorted s (t ∷ ts) = if less t s then t ∷ insert_sorted s ts else s ∷ t ∷ ts

-- SortSubjects: a stable sort by name
unfoldable pub sort_subjects : List Subject → List Subject
unfolding insert_sorted
sort_subjects [] = []
sort_subjects (s ∷ ss) = insert_sorted s (sort_subjects ss)

module _ (o : MapOrder) where
  -- normalizeUniq: a deep copy of a subject is the same value
  unfoldable pub normalize_uniq : List Subject → List Subject
  unfolding sort_subjects
  normalize_uniq uniq = sort_subjects (o.keys uniq)

  -- Normalize
  unfoldable pub normalize : List Subject → List Subject
  unfolding normalize_uniq add_all
  normalize subjects = normalize_uniq (add_all subjects [])
