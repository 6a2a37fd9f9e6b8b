-- ===== src/Gsuite.antt =====
-- pkg/groups/gsuite/grouper.go. The Google client, the files, the clock and regular expressions are
-- the parameter `Directory`; the metrics that the calls write are a list, oldest first.
pub mod Laws
use rbacsync.Prelude.{
  ℕ, String, string_eq, nat_eq, ◌==◌, Bool, true, false, not, Option, none, some, List, [], ◌∷◌,
  ◌++◌, if◌then◌else◌,
}
use rbacsync.Api.{Subject}
use rbacsync.Integers.{ℤ, pos, is_zero}
use rbacsync.Errors.{
  ErrorPackage, Result, ok, err, Sentinel, err_not_found, err_timeout, err_canceled, err_unknown,
  Arg, text, error,
}
use rbacsync.Groups.{Grouper, Reply}
use rbacsync.Groups.Subjects.{MapOrder, normalize}

-- What `ctx.Err()` tells.
pub data ContextError : Type 0 where
  deadline_exceeded canceled : ContextError

pub record Directory (P : ErrorPackage) : Type 1 where
  pub Outside : Type 0
  pub Regexp : Type 0
  pub JwtConfig : Type 0
  pub Service : Type 0
  pub Context : Type 0
  pub Member : Type 0
  pub email : Member → String
  pub compile : String → Result P.Error Regexp
  pub match_string : Regexp → String → Bool
  pub pattern_of : Regexp → String
  pub read_file : String → Outside → Result P.Error String × Outside
  pub jwt_config_from_json : String → Result P.Error JwtConfig
  pub with_subject : JwtConfig → String → JwtConfig
  pub new_service : JwtConfig → Outside → Result P.Error Service × Outside
  pub with_timeout : ℤ → Outside → Context × Outside
  pub cancel : Context → Outside → Outside
  pub now : Outside → ℕ × Outside
  -- The pages that the callback was given, and the error that ended the listing, if one did.
  pub list_pages :
      Service → Context → String → Outside → (List (List Member) × Option P.Error) × Outside
  pub context_err : Context → Outside → Option ContextError × Outside
  -- The code of an error that is a `*googleapi.Error`.
  pub google_code : P.Error → Option ℕ

-- The writes to the three metrics of gsuite in pkg/metrics/metrics.go.
pub data Metric : Type 0 where
  client_creation : String → Metric
  members_status : String → Metric
  members_latency : String → (start finish : ℕ) → Metric

-- defaultTimeout, in nanoseconds
abbrev pub default_timeout : ℤ
default_timeout = pos 30000000000

-- http.StatusNotFound
abbrev status_not_found : ℕ
status_not_found = 404

module _ (P : ErrorPackage) (D : Directory P) where
  open D use {Outside, Regexp, JwtConfig, Service, Context, Member}

  pub record World : Type 0 where
    pub outside : Outside
    pub metrics : List Metric

  -- The type Grouper of this package.
  pub record GsuiteGrouper : Type 0 where
    pub config : JwtConfig
    pub timeout : ℤ
    pub re : Option Regexp

  -- The first step of NewGrouper: no pattern, no expression.
  compile_pattern : String → Result P.Error (Option Regexp)
  compile_pattern pattern = if pattern == "" then ok none else elim (D.compile pattern) [
    | err e ↦
        err (P.wrapf e "could not compile %q as pattern for gsuite grouper" (text pattern ∷ []))
    | ok re ↦ ok (some re)
  ]

  -- The last steps of NewGrouper.
  configure : Option Regexp → String → ℤ → Result P.Error JwtConfig → Result P.Error GsuiteGrouper
  configure re delegator timeout (err e) = err e
  configure re delegator timeout (ok config) = ok (record {
    config = D.with_subject config delegator;
    timeout = if is_zero timeout then default_timeout else timeout;
    re = re;
  })

  read_credentials :
      Option Regexp → String → ℤ → Result P.Error String → Result P.Error GsuiteGrouper
  unfolding configure
  read_credentials re delegator timeout (err e) = err e
  read_credentials re delegator timeout (ok bytes) =
      configure re delegator timeout (D.jwt_config_from_json bytes)

  -- NewGrouper
  unfoldable pub new_grouper :
      String → String → String → ℤ → Outside → Result P.Error GsuiteGrouper × Outside
  unfolding compile_pattern read_credentials
  new_grouper credentials_path delegator pattern timeout w = elim (compile_pattern pattern) [
    | err e ↦ (err e, w)
    | ok re ↦
        let (bytes, w') = D.read_file credentials_path w in
        (read_credentials re delegator timeout bytes, w')
  ]

  -- isNotFound, isTimeout and isCanceled
  is_status_not_found : P.Error → Bool
  is_status_not_found e = elim (D.google_code e) [
    | none ↦ false
    | some code ↦ code == status_not_found
  ]

  is_timeout : Option ContextError → Bool
  is_timeout (some deadline_exceeded) = true
  is_timeout _ = false

  is_canceled : Option ContextError → Bool
  is_canceled (some canceled) = true
  is_canceled _ = false

  -- `metrics.….Inc()` and `metrics.….Observe(…)`
  record_metric : Metric → World → World
  record_metric m w = record w { metrics = w.metrics ++ m ∷ [] }

  -- The latency and the status of a listing that began at `start`.
  record_lookup : String → ℕ → World → World
  unfolding record_metric
  record_lookup status start w =
      let (finish, outside) = D.now w.outside in
      record_metric (members_status status)
        (record_metric (members_latency status start finish) (record w { outside = outside }))

  fail : String → Sentinel → String → ℕ → P.Error → World → Reply P World × World
  unfolding record_lookup
  fail status s format start e w =
      (err (P.wrapf (P.sentinel s) format (error e ∷ [])), record_lookup status start w)

  -- The `switch` of Members over the error of a listing.
  listing_failed : Context → ℕ → P.Error → World → Reply P World × World
  unfolding is_status_not_found is_timeout is_canceled fail
  listing_failed ctx start e w =
      let (first, w1) = D.context_err ctx w.outside in
      let (second, w2) = D.context_err ctx w1 in
      if is_status_not_found e
      then fail "NotFound" err_not_found "gsuite does not have group: %v" start e w
      else if is_timeout first
      then fail "Timeout" err_timeout "timeout calling gsuite api: %v" start e
          (record w { outside = w1 })
      else if is_canceled second
      then fail "Canceled" err_canceled "the context canceled the call to gsuite: %v" start e
          (record w { outside = w2 })
      else fail "Unknown" err_unknown "error retrieving group members: %v" start e
          (record w { outside = w2 })

  -- The callback of Pages over the members of a page, and over the pages.
  unfoldable pub user_subject : Member → Subject
  user_subject member = record {
    kind = "User";
    api_group = "rbac.authorization.k8s.io";
    name = D.email member;
    namespace = "";
  }

  add_page : List Member → List Subject → List Subject
  unfolding user_subject
  add_page [] subjects = subjects
  add_page (member ∷ page) subjects = add_page page (subjects ++ user_subject member ∷ [])

  unfoldable pub add_pages : List (List Member) → List Subject → List Subject
  unfolding add_page
  add_pages [] subjects = subjects
  add_pages (page ∷ pages) subjects = add_pages pages (add_page page subjects)

  -- The pattern that a group fails to match.
  ignored : Option Regexp → String → Option String
  ignored none group = none
  ignored (some re) group = if D.match_string re group then none else some (D.pattern_of re)

  module _ (o : MapOrder) where
    listed : Context → ℕ → List (List Member) → Option P.Error → World → Reply P World × World
    unfolding listing_failed add_pages
    listed ctx start pages (some e) w = listing_failed ctx start e w
    listed ctx start pages none w =
        (ok (normalize o (add_pages pages [])), record_lookup "Succeeded" start w)

    -- The listing, its context with the timeout, and the deferred `cancel`.
    lookup_members : GsuiteGrouper → Service → String → World → Reply P World × World
    unfolding listed
    lookup_members g client group w =
        let (ctx, w1) = D.with_timeout g.timeout w.outside in
        let (start, w2) = D.now w1 in
        let (listing, w3) = D.list_pages client ctx group w2 in
        let (reply, w4) = listed ctx start listing.0 listing.1 (record w { outside = w3 }) in
        (reply, record w4 { outside = D.cancel ctx w4.outside })

    with_client : GsuiteGrouper → String → Result P.Error Service → World → Reply P World × World
    unfolding lookup_members record_metric
    with_client g group (err e) w = (
      err (
          P.wrapf (P.sentinel err_unknown)
            "unable to determine group members, an error occurred creating gsuite client: %v"
            (error e ∷ [])),
      record_metric (client_creation "Failed") w,
    )
    with_client g group (ok client) w =
        lookup_members g client group (record_metric (client_creation "Succeeded") w)

    -- Members, from the pattern that the group fails to match, if it does.
    members_unless : GsuiteGrouper → String → Option String → World → Reply P World × World
    unfolding with_client
    members_unless g group (some pattern) w = (
      err (
          P.wrapf (P.sentinel err_not_found) "group %q does not match %q, ignored for gsuite lookup"
            (text group ∷ text pattern ∷ [])),
      w,
    )
    members_unless g group none w =
        let (client, outside) = D.new_service g.config w.outside in
        with_client g group client (record w { outside = outside })

    -- Grouper.Members
    unfoldable pub gsuite_members : GsuiteGrouper → Grouper P World
    unfolding ignored members_unless
    gsuite_members g group w = members_unless g group (ignored g.re group) w
