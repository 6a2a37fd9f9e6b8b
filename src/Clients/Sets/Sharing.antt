-- ===== src/Clients/Sets/Sharing.antt =====
-- What the clients of a set share.
use rbacsync.Prelude.{
  ℕ, ◌≡◌, ◌≢◌, refl, sym, ◌∙◌, ap, inl, inr, Bool-cases, Option, none, some, true, false, arith,
}
use rbacsync.Errors.{ErrorPackage, Result, ok, err}
use rbacsync.Integers.{is_positive}
use rbacsync.Clients.Connections.{Parts, RestConfig, ClientGo, Memory}
use rbacsync.Clients.RbacSyncV1alpha.{RbacSyncV1alphaClient}
use rbacsync.Clients.RbacSyncV1alpha.Laws.{with_defaults, client_of, client_from}
use rbacsync.Clients.Sets.{Clientset, new_for_config}
use rbacsync.Clients.Sets.Laws.{
  discovery_then, client_then, set_from, is_unlimited, limited, clientset_from, http_then,
  new_for_config-Agrees,
}

module _ (P : ErrorPackage) (T : Parts) (L : ClientGo T P) where
  -- The set's clients were both made from the config and the HTTP client: the one of the group with
  -- the config's defaults, the discovery client without them.
  pub record Both (c : RestConfig T) (h : T.HttpClient) (cs : Clientset P T) : Type 0 where
    pub rest_client : T.RestInterface
    pub rest_world : T.Outside
    pub discovery_world : T.Outside
    pub rest : (L.rest_client_for (with_defaults P T L c) h rest_world).0 ≡ ok rest_client
    pub client : cs.rbac_sync_v1alpha_client ≡ record { rest_client = some rest_client }
    pub discovery : (L.discovery_client_for c h discovery_world).0 ≡ ok cs.discovery_client

  -- One HTTP client and one rate limiter for both: the config's own limiter if it has one, a new one
  -- if QPS is above zero, and then Burst is positive, and else none.
  pub record Shared (c : RestConfig T) (w : T.Outside) (cs : Clientset P T) : Type 0 where
    pub http_client : T.HttpClient
    pub found : (L.http_client_for c w).0 ≡ ok http_client
    pub limiter : Option T.RateLimiter
    pub both : Both (record c { rate_limiter = limiter }) http_client cs
    pub own : c.rate_limiter ≢ none → limiter ≡ c.rate_limiter
    pub made :
        c.rate_limiter ≡ none
        → L.above_zero c.qps ≡ true
        → (is_positive c.burst ≡ true) × (limiter ≢ none)
    pub free : c.rate_limiter ≡ none → L.above_zero c.qps ≡ false → limiter ≡ none

  Made : Result P.Error T.RestInterface × T.Outside → RbacSyncV1alphaClient P T → Type 0
  Made r client = (x : T.RestInterface) × (r.0 ≡ ok x) × (client ≡ record { rest_client = some x })

  client_of-Made :
      (r : Result P.Error T.RestInterface × T.Outside) (client : RbacSyncV1alphaClient P T)
      → (client_of P T L r).0 ≡ ok client
      → Made r client
  unfolding client_of Made
  client_of-Made (ok x, w) client h = (x, refl, ground arith)
  client_of-Made (err e, w) client h = cc

  discovery_then-ok :
      (client : RbacSyncV1alphaClient P T) (d : Result P.Error T.DiscoveryClient × T.Outside)
      (cs : Clientset P T)
      → (discovery_then P T L client d).0 ≡ ok cs
      → (cs.rbac_sync_v1alpha_client ≡ client) × (d.0 ≡ ok cs.discovery_client)
  unfolding discovery_then
  discovery_then-ok client (ok d, w) cs h = (ground arith, ground arith)
  discovery_then-ok client (err e, w) cs h = cc

  client_then-ok :
      (c : RestConfig T) (h : T.HttpClient)
      (r : Result P.Error (RbacSyncV1alphaClient P T) × T.Outside) (cs : Clientset P T)
      → (client_then P T L c h r).0 ≡ ok cs
      → (r.0 ≡ ok cs.rbac_sync_v1alpha_client)
        × ((L.discovery_client_for c h r.1).0 ≡ ok cs.discovery_client)
  unfolding client_then
  client_then-ok c h (ok client, w) cs said =
      let (same, d) = discovery_then-ok client (L.discovery_client_for c h w) cs said in
      (ap ok (sym same), d)
  client_then-ok c h (err e, w) cs said = cc

  set-Both :
      (c : RestConfig T) (h : T.HttpClient) (w : T.Outside) (cs : Clientset P T)
      → (set_from P T L c h w).0 ≡ ok cs
      → Both c h cs
  unfolding set_from client_from Made
  set-Both c h w cs said =
      let (client, d) = client_then-ok c h (client_from P T L c h w) cs said in
      let (x, rest, same) =
        client_of-Made (L.rest_client_for (with_defaults P T L c) h w) _ client in
      record {
        rest_client = x;
        rest_world = w;
        discovery_world = _;
        rest = rest;
        client = same;
        discovery = d;
      }

  clientset-Shared :
      (c : RestConfig T) (h : T.HttpClient) (w v : T.Outside) (cs : Clientset P T)
      → (L.http_client_for c w).0 ≡ ok h
      → (clientset_from P T L c h v).0 ≡ ok cs
      → Shared c w cs
  unfolding clientset_from
  clientset-Shared c h w v cs found said = elim (Bool-cases (is_unlimited P T L c)) [
    | inr limited_already ↦ record {
      http_client = h;
      found = found;
      limiter = c.rate_limiter;
      both = set-Both c h v cs (ground arith);
      own = λ there. refl;
      made = λ absent above. absurd (ground arith);
      free = λ absent below. absent;
    }
    | inl unlimited ↦ elim (Bool-cases (is_positive c.burst)) [
      | inr no_burst ↦ absurd (ground arith)
      | inl burst ↦
          let (limiter, v') = L.new_token_bucket_rate_limiter c.qps c.burst v in
          record {
            http_client = h;
            found = found;
            limiter = some limiter;
            both = set-Both (limited P T L c v).0 h v' cs (ground arith);
            own = λ there. absurd (ground arith);
            made = λ absent above. (burst, λ p. cc);
            free = λ absent below. absurd (ground arith);
          }
    ]
  ]

  http_then-Shared :
      (c : RestConfig T) (w : T.Outside) (r : Result P.Error T.HttpClient × T.Outside)
      (cs : Clientset P T)
      → (L.http_client_for c w).0 ≡ r.0
      → (http_then P T L c r).0 ≡ ok cs
      → Shared c w cs
  unfolding http_then
  http_then-Shared c w (ok h, v) cs found said = clientset-Shared c h w v cs found said
  http_then-Shared c w (err e, v) cs found said = cc

  -- If NewForConfig returns a set of clients, then both were made with one HTTP client, the one that
  -- client-go makes of the config, and with one rate limiter: the config's own if it has one; else a
  -- new one if QPS is above zero, where Burst is positive; else none.
  pub new_for_config-Shared :
      (c : ℕ) (m : Memory T) (cs : Clientset P T)
      → (new_for_config P T L c m).0 ≡ ok cs
      → Shared (m.configs c) m.outside cs
  new_for_config-Shared c m cs said =
      http_then-Shared (m.configs c) m.outside (L.http_client_for (m.configs c) m.outside) cs refl
        (sym (new_for_config-Agrees P T L c m).1.0 ∙ said)
