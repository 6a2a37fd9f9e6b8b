-- ===== src/Groups/Merged/Laws.antt =====
-- What Merged.Members answers, from the answers of its sources.
use rbacsync.Prelude.{
  String, string_eq, ◌≡◌, ◌≢◌, refl, sym, ◌∙◌, ap, inl, inr, Bool-cases, List, [], ◌∷◌, ◌++◌,
  if◌then◌else◌, contains,
}
use rbacsync.Errors.{ErrorPackage, Result-cases, Result, ok, err, err_not_found, text, is_not_found}
use rbacsync.Api.{Subject, subject_eq}
use rbacsync.Groups.{Grouper, Reply}
use rbacsync.Groups.Subjects.{MapOrder, add_all, normalize}
use rbacsync.Groups.Merged.{merge, collect, finish, merged_members}

add_all-append :
    (xs ys uniq : List Subject) → add_all (xs ++ ys) uniq ≡ add_all ys (add_all xs uniq)
unfolding add_all
add_all-append [] ys uniq = refl
add_all-append (x ∷ xs) ys uniq = add_all-append xs ys _

add_all-cons :
    (ss : List Subject) (x : Subject) (uniq : List Subject)
    → (r : List Subject) × (add_all ss (x ∷ uniq) ≡ x ∷ r)
unfolding add_all
add_all-cons [] x uniq = (uniq, refl)
add_all-cons (s ∷ ss) x uniq = elim (Bool-cases (contains (x ∷ uniq) s)) [
  | inl old ↦ rw (old, add_all) (add_all-cons ss x uniq)
  | inr new ↦ rw (new, add_all) (add_all-cons ss x (uniq ++ s ∷ []))
]

module _ (P : ErrorPackage) (U : Type 0) where
  -- The answers of the sources, each called once and in order.
  unfoldable pub replies : List (Grouper P U) → String → U → List (Reply P U)
  replies [] group u = []
  replies (grouper ∷ groupers) group u =
      let (reply, u') = grouper group u in reply ∷ replies groupers group u'

  unfoldable pub prefix :
      List Subject → Result P.Error (List Subject) → Result P.Error (List Subject)
  prefix ss (ok l) = ok (ss ++ l)
  prefix ss (err e) = err e

  -- All subjects that the sources name, unless one of them fails with anything but "not found".
  unfoldable pub judge : List (Reply P U) → Result P.Error (List Subject)
  unfolding prefix
  judge [] = ok []
  judge (ok ss ∷ rs) = prefix ss (judge rs)
  judge (err e ∷ rs) = if is_not_found P e then judge rs else err e

  wrapped : List Subject → Result P.Error (List Subject) → Result P.Error (List Subject)
  wrapped uniq (ok l) = ok (add_all l uniq)
  wrapped uniq (err e) = err (P.wrap e "unknown error fetching group members")

  wrapped-prefix :
      (ss uniq : List Subject) (r : Result P.Error (List Subject))
      → wrapped (add_all ss uniq) r ≡ wrapped uniq (prefix ss r)
  unfolding wrapped prefix
  wrapped-prefix ss uniq (ok l) = ap ok (sym (add_all-append ss l uniq))
  wrapped-prefix ss uniq (err e) = refl

  collect_lem :
      (groupers : List (Grouper P U)) (group : String) (uniq : List Subject) (u : U)
      → (collect P U groupers group uniq u).0 ≡ wrapped uniq (judge (replies groupers group u))
  unfolding collect judge replies wrapped add_all
  collect_lem [] group uniq u = refl
  collect_lem (grouper ∷ groupers) group uniq u = elim (Result-cases (grouper group u).0) [
    | inl (ss, e) ↦
        rw (e, collect)
          (collect_lem groupers group (add_all ss uniq) (grouper group u).1
            ∙ wrapped-prefix ss uniq (judge (replies groupers group (grouper group u).1)))
    | inr (x, e) ↦
        rw (e, collect)
          (elim (Bool-cases (is_not_found P x)) [
            | inl absent ↦
                rw (absent, collect) (collect_lem groupers group uniq (grouper group u).1)
            | inr failed ↦ rw (failed, collect)
          ])
  ]

  module _ (o : MapOrder) where
    -- What a caller is told of a verdict.
    unfoldable pub answer : String → Result P.Error (List Subject) → Reply P U
    answer group (ok []) =
        err (P.wrapf (P.sentinel err_not_found) "no members in %q" (text group ∷ []))
    answer group (ok (s ∷ l)) = ok (normalize o (s ∷ l))
    answer group (err e) = err (P.wrap e "unknown error fetching group members")

    pub answer-ok :
        (group : String) (xs : List Subject) → xs ≢ [] → answer group (ok xs) ≡ ok (normalize o xs)
    unfolding answer
    answer-ok group [] ne = absurd (ne refl)
    answer-ok group (x ∷ xs) ne = refl

    finish-wrapped :
        (group : String) (r : Result P.Error (List Subject))
        → finish P U o group (wrapped [] r) ≡ answer group r
    unfolding finish wrapped normalize answer
    finish-wrapped group (err e) = refl
    finish-wrapped group (ok []) = refl
    finish-wrapped group (ok (s ∷ l)) = let (r, e) = add_all-cons l s [] in rw (e, finish)

    -- The answer of Merge's result for a group, from the answers of its sources: it is the
    -- normalized list of all their subjects; "not found" if there are none; and the wrapped error
    -- of the first source that fails with anything but "not found", if one does.
    pub merged_members_lem :
        (groupers : List (Grouper P U)) (group : String) (u : U)
        → (merged_members P U o (merge P U groupers) group u).0
          ≡ answer group (judge (replies groupers group u))
    unfolding merged_members merge
    merged_members_lem groupers group u =
        rw (collect_lem groupers group [] u)
          (finish-wrapped group (judge (replies groupers group u)))
