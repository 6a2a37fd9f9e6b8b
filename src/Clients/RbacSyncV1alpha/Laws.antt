-- ===== src/Clients/RbacSyncV1alpha/Laws.antt =====
-- What the constructors of the client of the group answer.
use rbacsync.Prelude.{
  ℕ, ◌<◌, string_eq, ◌==◌, ◌≡◌, refl, ◌∙◌, ap, subst, none, some, arith, if◌then◌else◌,
}
use rbacsync.Errors.{ErrorPackage, Result, ok, err}
use rbacsync.Clients.Connections.{Parts, RestConfig, ClientGo, Memory, shallow_copy}
use rbacsync.Clients.Connections.Laws.{
  Keeps, Agrees, Keeps-refl, Agrees-trans, call-Agrees, then-Agrees, shallow_copy_lem,
}
use rbacsync.Clients.RbacSyncV1alpha.{
  scheme_group_version, RbacSyncV1alphaClient, set_config_defaults, made, new_for_config_and_client,
  with_http, new_for_config,
}

module _ (P : ErrorPackage) (T : Parts) (L : ClientGo T P) where
  -- The config as the client of the group needs it.
  abbrev pub with_defaults : RestConfig T → RestConfig T
  with_defaults c = record c {
    group_version = some scheme_group_version;
    api_path = "/apis";
    negotiated_serializer = some L.without_conversion;
    user_agent = if c.user_agent == "" then L.default_kubernetes_user_agent else c.user_agent;
  }

  unfoldable pub client_of :
      Result P.Error T.RestInterface × T.Outside
      → Result P.Error (RbacSyncV1alphaClient P T) × T.Outside
  client_of (err e, w) = (err e, w)
  client_of (ok client, w) = (ok (record { rest_client = some client }), w)

  -- The client, from a config and an HTTP client alone.
  unfoldable pub client_from :
      RestConfig T
      → T.HttpClient
      → T.Outside
      → Result P.Error (RbacSyncV1alphaClient P T) × T.Outside
  unfolding client_of
  client_from c h w = client_of (L.rest_client_for (with_defaults c) h w)

  defaults_lem :
      (c : ℕ) (m : Memory T)
      → let (q, m') = shallow_copy T c m in
        let (failure, m'') = set_config_defaults P T L q m' in
        (failure ≡ none)
        × (m''.configs q ≡ with_defaults (m.configs c))
        × (m''.outside ≡ m.outside)
        × (q < m''.next)
        × Keeps T m m''
  unfolding set_config_defaults
  defaults_lem c m =
      let (q, m') = shallow_copy T c m in
      let (at_next, next, same, outside, kept) = shallow_copy_lem T c m in
      (
        refl,
        ground (arith, same),
        outside,
        ground (arith, at_next, next),
        (kept.0, λ p h. ground (arith, at_next, kept.1 p h)),
      )

  made-Agrees :
      (r : Result P.Error T.RestInterface) (m : Memory T)
      → Agrees T m (made P T L (r, m)) (client_of (r, m.outside))
  unfolding made client_of
  made-Agrees (ok client) m = (refl, refl, Keeps-refl T m)
  made-Agrees (err e) m = (refl, refl, Keeps-refl T m)

  -- NewForConfigAndClient answers what the config and the HTTP client say, and keeps the configs.
  pub new_for_config_and_client-Agrees :
      (c : ℕ) (h : T.HttpClient) (m : Memory T)
      → Agrees T m (new_for_config_and_client P T L c h m) (client_from (m.configs c) h m.outside)
  unfolding new_for_config_and_client client_from
  new_for_config_and_client-Agrees c h m =
      let (q, m') = shallow_copy T c m in
      let m'' = (set_config_defaults P T L q m').1 in
      let (none_failed, same, outside, below, kept) = defaults_lem c m in
      then-Agrees T (made P T L) client_of m _ _ (λ r n k. made-Agrees r n)
        (call-Agrees T (λ x. L.rest_client_for x h) q m m'' _ same kept)

  -- Defaults that are there stay.
  defaults_twice : (c : RestConfig T) → with_defaults (with_defaults c) ≡ with_defaults c
  defaults_twice c = ground arith

  unfoldable pub http_then :
      RestConfig T
      → Result P.Error T.HttpClient × T.Outside
      → Result P.Error (RbacSyncV1alphaClient P T) × T.Outside
  unfolding client_from
  http_then c (err e, w) = (err e, w)
  http_then c (ok h, w) = client_from c h w

  with_http-Agrees :
      (c : RestConfig T) (q : ℕ) (r : Result P.Error T.HttpClient) (m : Memory T)
      → m.configs q ≡ with_defaults c
      → Agrees T m (with_http P T L q (r, m)) (http_then c (r, m.outside))
  unfolding with_http http_then client_from
  with_http-Agrees c q (err e) m same = (refl, refl, Keeps-refl T m)
  with_http-Agrees c q (ok h) m same =
      subst
        (λ d.
          Agrees T m (with_http P T L q (ok h, m)) (client_of (L.rest_client_for d h m.outside)))
        (ap with_defaults same ∙ defaults_twice c) (new_for_config_and_client-Agrees q h m)

  -- NewForConfig makes the HTTP client of the config with its defaults, and with it what
  -- NewForConfigAndClient makes of the config. It keeps the configs.
  pub new_for_config-Agrees :
      (c : ℕ) (m : Memory T)
      → Agrees T m
          (new_for_config P T L c m)
          (http_then (m.configs c) (L.http_client_for (with_defaults (m.configs c)) m.outside))
  unfolding new_for_config
  new_for_config-Agrees c m =
      let (q, m') = shallow_copy T c m in
      let m'' = (set_config_defaults P T L q m').1 in
      let (none_failed, same, outside, below, kept) = defaults_lem c m in
      Agrees-trans T m m'' _ _ kept (
        then-Agrees T (with_http P T L q) (http_then (m.configs c)) m'' _ _
          (λ r n k. with_http-Agrees (m.configs c) q r n (k.1 q below ∙ same))
          (call-Agrees T L.http_client_for q m'' m'' _ same (Keeps-refl T m'')))
