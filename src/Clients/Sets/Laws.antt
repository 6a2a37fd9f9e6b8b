-- ===== src/Clients/Sets/Laws.antt =====
-- What the constructors of the set of clients answer.
use rbacsync.Prelude.{
  ℕ, ◌<◌, ◌≤◌, nat_eq, ◌≡◌, refl, sym, ap₂, ◌∙◌, subst, inl, inr, Bool, Bool-cases, ◌&&◌, not, some,
  arith, if◌then◌else◌,
}
use rbacsync.Errors.{ErrorPackage, Result, ok, err}
use rbacsync.Integers.{is_positive}
use rbacsync.Clients.Connections.{Parts, RestConfig, ClientGo, Memory, shallow_copy, call}
use rbacsync.Clients.Connections.Laws.{
  Keeps, Agrees, Keeps-refl, Agrees-trans, call-Agrees, then-Agrees, shallow_copy_lem,
}
use rbacsync.Clients.RbacSyncV1alpha.{RbacSyncV1alphaClient}
use rbacsync.Clients.RbacSyncV1alpha.Laws as V1alpha
use rbacsync.Clients.Sets.{
  is_none, burst_required, Clientset, with_discovery, with_client, clients, limit,
  new_for_config_and_client, with_http, new_for_config,
}

module _ (P : ErrorPackage) (T : Parts) (L : ClientGo T P) where
  unfoldable pub discovery_then :
      RbacSyncV1alphaClient P T
      → Result P.Error T.DiscoveryClient × T.Outside
      → Result P.Error (Clientset P T) × T.Outside
  discovery_then client (err e, w) = (err e, w)
  discovery_then client (ok d, w) =
      (ok (record { discovery_client = d; rbac_sync_v1alpha_client = client }), w)

  unfoldable pub client_then :
      RestConfig T
      → T.HttpClient
      → Result P.Error (RbacSyncV1alphaClient P T) × T.Outside
      → Result P.Error (Clientset P T) × T.Outside
  unfolding discovery_then
  client_then c h (err e, w) = (err e, w)
  client_then c h (ok client, w) = discovery_then client (L.discovery_client_for c h w)

  -- The two clients, from one config and one HTTP client.
  unfoldable pub set_from :
      RestConfig T → T.HttpClient → T.Outside → Result P.Error (Clientset P T) × T.Outside
  unfolding client_then V1alpha.client_from
  set_from c h w = client_then c h (V1alpha.client_from P T L c h w)

  -- A rate limiter is to be made.
  abbrev pub is_unlimited : RestConfig T → Bool
  is_unlimited c = is_none c.rate_limiter && L.above_zero c.qps

  abbrev pub limited : RestConfig T → T.Outside → RestConfig T × T.Outside
  limited c w =
      let (limiter, w') = L.new_token_bucket_rate_limiter c.qps c.burst w in
      (record c { rate_limiter = some limiter }, w')

  -- The set, from a config and an HTTP client alone: one rate limiter for both clients.
  unfoldable pub clientset_from :
      RestConfig T → T.HttpClient → T.Outside → Result P.Error (Clientset P T) × T.Outside
  unfolding set_from
  clientset_from c h w =
      if is_unlimited c
      then (if is_positive c.burst
          then (let (c', w') = limited c w in set_from c' h w')
          else (err (L.errorf burst_required), w))
      else set_from c h w

  with_discovery-Agrees :
      (client : RbacSyncV1alphaClient P T) (r : Result P.Error T.DiscoveryClient) (m : Memory T)
      → Agrees T m (with_discovery P T L client (r, m)) (discovery_then client (r, m.outside))
  unfolding with_discovery discovery_then
  with_discovery-Agrees client (ok d) m = (refl, refl, Keeps-refl T m)
  with_discovery-Agrees client (err e) m = (refl, refl, Keeps-refl T m)

  with_client-Agrees :
      (c : RestConfig T) (q : ℕ) (h : T.HttpClient) (r : Result P.Error (RbacSyncV1alphaClient P T))
      (m : Memory T)
      → m.configs q ≡ c
      → Agrees T m (with_client P T L q h (r, m)) (client_then c h (r, m.outside))
  unfolding with_client client_then
  with_client-Agrees c q h (err e) m same = (refl, refl, Keeps-refl T m)
  with_client-Agrees c q h (ok client) m same =
      then-Agrees T (with_discovery P T L client) (discovery_then client) m _ _
        (λ r n k. with_discovery-Agrees client r n)
        (call-Agrees T (λ x. L.discovery_client_for x h) q m m c same (Keeps-refl T m))

  clients-Agrees :
      (q : ℕ) (h : T.HttpClient) (m : Memory T)
      → q < m.next
      → Agrees T m (clients P T L q h m) (set_from (m.configs q) h m.outside)
  unfolding clients set_from
  clients-Agrees q h m below =
      then-Agrees T (with_client P T L q h) (client_then (m.configs q) h) m _ _
        (λ r n k. with_client-Agrees (m.configs q) q h r n (k.1 q below))
        (V1alpha.new_for_config_and_client-Agrees P T L q h m)

  limit_lem :
      (q : ℕ) (h : T.HttpClient) (m n : Memory T)
      → m.next ≤ q
      → Keeps T m n
      → ((limit P T L q n).configs q ≡ (limited (n.configs q) n.outside).0)
        × Keeps T m (limit P T L q n)
  unfolding limit
  limit_lem q h m n above kept = (ground arith, (kept.0, λ p below. ground (arith, kept.1 p below)))

  limited-Agrees :
      (q : ℕ) (h : T.HttpClient) (m n : Memory T)
      → m.next ≤ q
      → q < n.next
      → Keeps T m n
      → let (c', w') = limited (n.configs q) n.outside in
        Agrees T m (clients P T L q h (limit P T L q n)) (set_from c' h w')
  unfolding limit
  limited-Agrees q h m n above below kept =
      let (same, kept') = limit_lem q h m n above kept in
      Agrees-trans T m (limit P T L q n) _ _ kept' (
        subst
          (λ c.
            Agrees T (limit P T L q n) (clients P T L q h (limit P T L q n))
              (set_from c h (limited (n.configs q) n.outside).1))
          same (clients-Agrees q h (limit P T L q n) below))

  -- From the copy of the config on.
  copied : ℕ → T.HttpClient → Memory T → Result P.Error (Clientset P T) × Memory T
  copied q h n =
      if is_unlimited (n.configs q)
      then (if not (is_positive (n.configs q).burst)
          then (err (L.errorf burst_required), n)
          else clients P T L q h (limit P T L q n))
      else clients P T L q h n

  copied-Agrees :
      (q : ℕ) (h : T.HttpClient) (m n : Memory T)
      → m.next ≤ q
      → q < n.next
      → Keeps T m n
      → Agrees T m (copied q h n) (clientset_from (n.configs q) h n.outside)
  unfolding clientset_from copied
  copied-Agrees q h m n above below kept = elim (Bool-cases (is_unlimited (n.configs q))) [
    | inr limited_already ↦
        rw limited_already (Agrees-trans T m n _ _ kept (clients-Agrees q h n below))
    | inl unlimited ↦ elim (Bool-cases (is_positive (n.configs q).burst)) [
      | inl burst ↦ rw (unlimited, burst) (limited-Agrees q h m n above below kept)
      | inr no_burst ↦ rw (unlimited, no_burst) (refl, refl, kept)
    ]
  ]

  -- NewForConfigAndClient answers what the config and the HTTP client say, and keeps the configs.
  pub new_for_config_and_client-Agrees :
      (c : ℕ) (h : T.HttpClient) (m : Memory T)
      → Agrees T m
          (new_for_config_and_client P T L c h m)
          (clientset_from (m.configs c) h m.outside)
  unfolding new_for_config_and_client copied
  new_for_config_and_client-Agrees c h m =
      let (q, n) = shallow_copy T c m in
      let (at_next, next, same, outside, kept) = shallow_copy_lem T c m in
      subst (λ d. Agrees T m (copied q h n) (clientset_from d h m.outside)) same
        (subst (λ w. Agrees T m (copied q h n) (clientset_from (n.configs q) h w)) outside
          (copied-Agrees q h m n (ground arith) (ground arith) kept))

  -- NewForConfig, from a config alone: the HTTP client of the config, and with it the set.
  unfoldable pub http_then :
      RestConfig T
      → Result P.Error T.HttpClient × T.Outside
      → Result P.Error (Clientset P T) × T.Outside
  unfolding clientset_from
  http_then c (err e, w) = (err e, w)
  http_then c (ok h, w) = clientset_from c h w

  with_http-Agrees :
      (c : RestConfig T) (q : ℕ) (r : Result P.Error T.HttpClient) (m : Memory T)
      → m.configs q ≡ c
      → Agrees T m (with_http P T L q (r, m)) (http_then c (r, m.outside))
  unfolding with_http http_then
  with_http-Agrees c q (err e) m same = (refl, refl, Keeps-refl T m)
  with_http-Agrees c q (ok h) m same =
      subst (λ d. Agrees T m (with_http P T L q (ok h, m)) (clientset_from d h m.outside)) same
        (new_for_config_and_client-Agrees q h m)

  from_value :
      (c : ℕ) (m : Memory T)
      → Agrees T m
          (new_for_config P T L c m)
          (http_then (m.configs c) (L.http_client_for (m.configs c) m.outside))
  unfolding new_for_config
  from_value c m =
      let (q, n) = shallow_copy T c m in
      let (at_next, next, same, outside, kept) = shallow_copy_lem T c m in
      Agrees-trans T m n _ _ kept (
        then-Agrees T (with_http P T L q) (http_then (m.configs c)) n _ _
          (λ r l k.
            with_http-Agrees (m.configs c) q r l (k.1 q (ground (arith, at_next, next)) ∙ same))
          (subst
            (λ w. Agrees T n (call T L.http_client_for q n) (L.http_client_for (m.configs c) w))
            outside (call-Agrees T L.http_client_for q n n (m.configs c) same (Keeps-refl T n))))

  -- What NewForConfigAndClient answers on the same pointer, after client-go has made the HTTP client,
  -- or the error of making that one.
  unfoldable pub through :
      ℕ
      → Memory T
      → Result P.Error T.HttpClient × T.Outside
      → Result P.Error (Clientset P T) × T.Outside
  through c m (err e, w) = (err e, w)
  through c m (ok h, w) =
      let (r, n) = new_for_config_and_client P T L c h (record m { outside = w }) in (r, n.outside)

  through-http_then :
      (c : ℕ) (m : Memory T) (x : Result P.Error T.HttpClient × T.Outside)
      → http_then (m.configs c) x ≡ through c m x
  unfolding through http_then
  through-http_then c m (err e, w) = refl
  through-http_then c m (ok h, w) =
      let (r, outside, kept) = new_for_config_and_client-Agrees c h (record m { outside = w }) in
      sym (ap₂ (λ a b. (a, b)) r outside)

  -- NewForConfig answers what NewForConfigAndClient answers for the same config and the HTTP client
  -- that client-go makes of it, or the error of making that one. And it answers what `http_then`
  -- says of the config's value alone: that error, an error if a rate limiter is needed and Burst is
  -- not positive, the first error of the two clients, or the set of both. The world outside is the
  -- same after all three, and no rest.Config that was in memory before the call is changed.
  pub new_for_config-Agrees :
      (c : ℕ) (m : Memory T)
      → let http = L.http_client_for (m.configs c) m.outside in
        Agrees T m (new_for_config P T L c m) (through c m http)
        × Agrees T m (new_for_config P T L c m) (http_then (m.configs c) http)
  new_for_config-Agrees c m =
      let http = L.http_client_for (m.configs c) m.outside in
      (
        subst (Agrees T m (new_for_config P T L c m)) (through-http_then c m http) (from_value c m),
        from_value c m,
      )
