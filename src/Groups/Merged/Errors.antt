-- ===== src/Groups/Merged/Errors.antt =====
-- The errors of Merged.Members, and of sources in general.
use rbacsync.Prelude.{String, ◌≡◌, refl, sym, ◌∙◌, ◌⊎◌, inl, inr, true, false, List, [], ◌∷◌, arith}
use rbacsync.Errors.{
  ErrorPackage, IsLawful, Result, ok, err, err_not_found, is_not_found, is_unknown_memberships,
  text,
}
use rbacsync.Errors.Kinds.{IsClassified, wrap_kind, wrapf_kind, is_not_found-sentinel}
use rbacsync.Api.{Subject}
use rbacsync.Groups.{Grouper, Reply}
use rbacsync.Groups.Subjects.{MapOrder}
use rbacsync.Groups.Merged.{merge, merged_members}
use rbacsync.Groups.Merged.Laws.{replies, judge, answer, merged_members_lem}

module _ (P : ErrorPackage) (U : Type 0) where
  judge-err :
      (rs : List (Reply P U)) (x : P.Error) → judge P U rs ≡ err x → is_not_found P x ≡ false
  unfolding judge
  judge-err [] x h = cc
  judge-err (ok ss ∷ rs) x h = ground (arith, judge-err rs x)
  judge-err (err e ∷ rs) x h = ground (arith, judge-err rs x)

  -- Whatever a source answers, its errors are of the kinds that the controller knows.
  abbrev pub ErrorsClassified : Grouper P U → Type 0
  ErrorsClassified grouper =
      (group : String) (u : U) (e : P.Error) → (grouper group u).0 ≡ err e → IsClassified P e

  module _ (L : IsLawful P) (o : MapOrder) (group : String) where
    answer-err :
        (r : Result P.Error (List Subject)) (e : P.Error)
        → ((x : P.Error) → r ≡ err x → is_not_found P x ≡ false)
        → answer P U o group r ≡ err e
        → ((r ≡ ok []) × (is_not_found P e ≡ true))
          ⊎ ((x : P.Error) × (r ≡ err x)
              × (is_not_found P e ≡ false)
              × (is_unknown_memberships P e ≡ is_unknown_memberships P x))
    unfolding answer
    answer-err (ok []) e other h = inl (
      refl,
      ground (
        arith,
        wrapf_kind P L (P.sentinel err_not_found) "no members in %q" (text group ∷ []),
        is_not_found-sentinel P L,
      ),
    )
    answer-err (ok (s ∷ l)) e other h = cc
    answer-err (err x) e other h = inr (
      x,
      refl,
      ground (arith, other x, wrap_kind P L x "unknown error fetching group members"),
      ground (arith, wrap_kind P L x "unknown error fetching group members"),
    )

    -- An error of Merge's result is "not found" if no source names a subject and none fails with
    -- anything else. Otherwise it has the kind of the error of the first source that fails so, and
    -- is not "not found".
    pub merged_members-err :
        (groupers : List (Grouper P U)) (u : U) (e : P.Error)
        → (merged_members P U o (merge P U groupers) group u).0 ≡ err e
        → ((judge P U (replies P U groupers group u) ≡ ok []) × (is_not_found P e ≡ true))
          ⊎ ((x : P.Error) × (judge P U (replies P U groupers group u) ≡ err x)
              × (is_not_found P e ≡ false)
              × (is_unknown_memberships P e ≡ is_unknown_memberships P x))
    merged_members-err groupers u e h =
        answer-err (judge P U (replies P U groupers group u)) e
          (judge-err (replies P U groupers group u))
          (sym (merged_members_lem P U o groupers group u) ∙ h)

  -- Each source of a list has classified errors.
  abbrev pub AllClassified : List (Grouper P U) → Type 0
  AllClassified [] = Unit
  AllClassified (grouper ∷ groupers) = ErrorsClassified grouper × AllClassified groupers

  judge-IsClassified :
      (groupers : List (Grouper P U)) (group : String) (u : U) (x : P.Error)
      → AllClassified groupers
      → judge P U (replies P U groupers group u) ≡ err x
      → IsClassified P x
  unfolding judge replies
  judge-IsClassified [] group u x all h = cc
  judge-IsClassified (grouper ∷ groupers) group u x (first, all) h =
      ground (arith, judge-IsClassified groupers group (grouper group u).1 x all, first group u x)

  -- Merging sources with classified errors gives a source with classified errors.
  pub merged_members-ErrorsClassified :
      IsLawful P
      → (o : MapOrder) (groupers : List (Grouper P U)) → AllClassified groupers
      → ErrorsClassified (merged_members P U o (merge P U groupers))
  merged_members-ErrorsClassified L o groupers all group u e h =
      elim (merged_members-err L o group groupers u e h) [
        | inl (_, absent) ↦ ground arith
        | inr (x, q, _, same) ↦ ground (
          arith,
          judge-err (replies P U groupers group u) x q,
          judge-IsClassified groupers group u x all q,
        )
      ]
