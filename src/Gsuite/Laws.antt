-- ===== src/Gsuite/Laws.antt =====
-- What pkg/groups/gsuite/grouper.go answers for a group.
use mathlib.Core.List.{flatten, map, map-append, append_assoc, append-nil}
use rbacsync.Prelude.{
  ℕ, String, string_eq, nat_eq, ◌≡◌, ◌≢◌, ◌↔◌, ◌∙◌, ap, true, false, Option, none, some, List, [],
  ◌∷◌, ◌++◌, arith, inl, inr, ◌⊎◌,
}
use rbacsync.Api.{Subject}
use rbacsync.Integers.{ℤ, pos}
use rbacsync.Errors.{
  ErrorPackage, IsLawful, Result, ok, err, Result-cases, err_not_found, err_timeout, err_canceled,
  err_unknown, text, error, is_not_found,
}
use rbacsync.Errors.Kinds.{IsClassified, sentinel-IsClassified, wrapf_kind, is_not_found-sentinel}
use rbacsync.Groups.{Reply}
use rbacsync.Groups.Merged.Errors.{ErrorsClassified}
use rbacsync.Groups.Subjects.{MapOrder, normalize}
use rbacsync.Gsuite.{
  Directory, World, GsuiteGrouper, ignored, user_subject, add_page, add_pages, listing_failed,
  listed, members_unless, with_client, gsuite_members, read_credentials, new_grouper,
}

module _ (P : ErrorPackage) (D : Directory P) where
  -- The users of a page and of all pages, in the order of the listing.
  pub users : List (List D.Member) → List Subject
  users pages = map (user_subject P D) (flatten pages)

  add_page_lem :
      (page : List D.Member) (subjects : List Subject)
      → add_page P D page subjects ≡ subjects ++ map (user_subject P D) page
  unfolding add_page
  add_page_lem [] subjects = rw append-nil
  add_page_lem (m ∷ page) subjects = add_page_lem page _ ∙ rw append_assoc

  add_pages_lem :
      (pages : List (List D.Member)) (subjects : List Subject)
      → add_pages P D pages subjects ≡ subjects ++ users pages
  unfolding add_pages users flatten
  add_pages_lem [] subjects = rw append-nil
  add_pages_lem (page ∷ pages) subjects =
      add_pages_lem pages _ ∙ rw (add_page_lem page subjects) (rw (map-append, append_assoc))

  -- The pages of a listing that ended well, with what led to it.
  complete : List (List D.Member) → Option P.Error → Option (List (List D.Member))
  complete pages none = some pages
  complete pages (some e) = none

  fetched_by :
      GsuiteGrouper P D
      → String
      → Result P.Error D.Service
      → D.Outside
      → Option (List (List D.Member))
  unfolding complete
  fetched_by g group (err e) w = none
  fetched_by g group (ok service) w =
      let (ctx, w1) = D.with_timeout g.timeout w in
      let (start, w2) = D.now w1 in
      let (listing, w3) = D.list_pages service ctx group w2 in complete listing.0 listing.1

  fetched_unless :
      GsuiteGrouper P D → String → Option String → World P D → Option (List (List D.Member))
  unfolding fetched_by
  fetched_unless g group (some pattern) w = none
  fetched_unless g group none w =
      let (client, w') = D.new_service g.config w.outside in fetched_by g group client w'

  pub fetched : GsuiteGrouper P D → String → World P D → Option (List (List D.Member))
  unfolding fetched_unless
  fetched g group w = fetched_unless g group (ignored P D g.re group) w

  -- What is asked of an answer, given the pages that were fetched.
  abbrev pub Answers : MapOrder → Option (List (List D.Member)) → Reply P (World P D) → Type 0
  Answers o (some pages) (ok l) = l ≡ normalize o (users pages)
  Answers o none (err e) = IsClassified P e
  Answers o _ _ = ⊥

  module _ (L : IsLawful P) (o : MapOrder) where
    listing_failed-Answers :
        (ctx : D.Context) (start : ℕ) (e : P.Error) (w : World P D)
        → Answers o none (listing_failed P D ctx start e w).0
    unfolding listing_failed
    listing_failed-Answers ctx start e w = ground (
      arith,
      sentinel-IsClassified P L err_not_found "gsuite does not have group: %v" (error e ∷ []),
      sentinel-IsClassified P L err_timeout "timeout calling gsuite api: %v" (error e ∷ []),
      sentinel-IsClassified P L err_canceled "the context canceled the call to gsuite: %v"
          (error e ∷ []),
      sentinel-IsClassified P L err_unknown "error retrieving group members: %v" (error e ∷ []),
    )

    listed-Answers :
        (ctx : D.Context) (start : ℕ) (pages : List (List D.Member)) (ending : Option P.Error)
        (w : World P D)
        → Answers o (complete pages ending) (listed P D o ctx start pages ending w).0
    unfolding listed complete
    listed-Answers ctx start pages none w = ap (normalize o) (add_pages_lem pages [])
    listed-Answers ctx start pages (some e) w = listing_failed-Answers ctx start e w

    with_client-Answers :
        (g : GsuiteGrouper P D) (group : String) (client : Result P.Error D.Service) (w : World P D)
        → Answers o (fetched_by g group client w.outside) (with_client P D o g group client w).0
    unfolding with_client fetched_by
    with_client-Answers g group (err e) w = sentinel-IsClassified P L err_unknown _ _
    with_client-Answers g group (ok service) w = listed-Answers _ _ _ _ _

    members_unless-Answers :
        (g : GsuiteGrouper P D) (group : String) (pattern : Option String) (w : World P D)
        → Answers o (fetched_unless g group pattern w) (members_unless P D o g group pattern w).0
    unfolding fetched_unless members_unless
    members_unless-Answers g group (some pattern) w = sentinel-IsClassified P L err_not_found _ _
    members_unless-Answers g group none w = with_client-Answers g group _ _

    -- For every group: if the group is one to look up, the client can be made and the listing ends
    -- without an error, then the answer is the normalized list of the users of all its pages. If
    -- not, the answer is an error, either "not found" or one of the three that stand for unknown
    -- memberships; no page is used then.
    pub gsuite_members_lem :
        (g : GsuiteGrouper P D) (group : String) (w : World P D)
        → Answers o (fetched g group w) (gsuite_members P D o g group w).0
    unfolding fetched gsuite_members
    gsuite_members_lem g group w = members_unless-Answers g group (ignored P D g.re group) w

  -- A group that does not match the pattern is "not found", and nothing outside is asked or written.
  pub gsuite_members-ignored :
      IsLawful P
      → (o : MapOrder) (g : GsuiteGrouper P D) (group : String) (w : World P D) (re : D.Regexp)
      → g.re ≡ some re
      → D.match_string re group ≡ false
      → (e : P.Error) × (gsuite_members P D o g group w ≡ (err e, w)) × (is_not_found P e ≡ true)
  unfolding gsuite_members
  gsuite_members-ignored L o g group w re h m = (
    P.wrapf (P.sentinel err_not_found) "group %q does not match %q, ignored for gsuite lookup"
        (text group ∷ text (D.pattern_of re) ∷ []),
    ground arith,
    ground (
      arith,
      wrapf_kind P L (P.sentinel err_not_found)
          "group %q does not match %q, ignored for gsuite lookup"
          (text group ∷ text (D.pattern_of re) ∷ []),
      is_not_found-sentinel P L,
    ),
  )

  -- The source that gsuite is for the controller has classified errors.
  pub gsuite_members-ErrorsClassified :
      IsLawful P
      → (o : MapOrder) (g : GsuiteGrouper P D)
      → ErrorsClassified P (World P D) (gsuite_members P D o g)
  gsuite_members-ErrorsClassified L o g group w e h =
      ground (arith, gsuite_members_lem L o g group w)

  -- What the flags ask of a grouper.
  pub record IsConfigured (path delegator : String) (timeout : ℤ) (w : D.Outside)
      (g : GsuiteGrouper P D) : Type 0 where
    pub bytes : String
    pub config : D.JwtConfig
    pub credentials : (D.read_file path w).0 ≡ ok bytes
    pub parsed : D.jwt_config_from_json bytes ≡ ok config
    pub delegated : g.config ≡ D.with_subject config delegator
    pub bounded : g.timeout ≢ pos 0
    pub kept : (timeout ≡ pos 0) ⊎ (g.timeout ≡ timeout)

  configure-ok :
      (re : Option D.Regexp) (path delegator : String) (timeout : ℤ) (w : D.Outside)
      (g : GsuiteGrouper P D)
      → read_credentials P D re delegator timeout (D.read_file path w).0 ≡ ok g
      → IsConfigured path delegator timeout w g × (g.re ≡ re)
  unfolding read_credentials
  configure-ok re path delegator timeout w g h = elim (Result-cases (D.read_file path w).0) [
    | inr (e, q) ↦ absurd (ground arith)
    | inl (bytes, q) ↦ elim (Result-cases (D.jwt_config_from_json bytes)) [
      | inr (e, r) ↦ absurd (ground arith)
      | inl (config, r) ↦ (
        record {
          bytes = bytes;
          config = config;
          credentials = q;
          parsed = r;
          delegated = ground arith;
          bounded = λ z. ground arith;
          kept = ground arith;
        },
        ground arith,
      )
    ]
  ]

  -- A grouper that NewGrouper returns has the credentials of the file and acts for the delegator.
  -- Its timeout is never 0, and is the given one unless that is 0. It has an expression exactly if
  -- the pattern is not empty.
  pub new_grouper-ok :
      (path delegator pattern : String) (timeout : ℤ) (w : D.Outside) (g : GsuiteGrouper P D)
      → (new_grouper P D path delegator pattern timeout w).0 ≡ ok g
      → IsConfigured path delegator timeout w g × ((g.re ≡ none) ↔ (pattern ≡ ""))
  unfolding new_grouper
  new_grouper-ok path delegator pattern timeout w g h = elim (string_eq.dec pattern "") [
    | yes q ↦
        let (c, re) = configure-ok none path delegator timeout w g (ground arith) in
        (c, (λ _. q, λ _. re))
    | no q ↦ elim (Result-cases (D.compile pattern)) [
      | inr (e, r) ↦ absurd (ground arith)
      | inl (x, r) ↦
          let (c, re) = configure-ok (some x) path delegator timeout w g (ground arith) in
          (c, (λ p. absurd (ground arith), λ p. absurd (q p)))
    ]
  ]
