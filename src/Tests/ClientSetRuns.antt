-- ===== src/Tests/ClientSetRuns.antt =====
-- The theorems on the constructors of the clients, at concrete data.
use native.Mathlib.Decide.{ℕ_discrete}
use rbacsync.Prelude.{ℕ, suc, String, string_eq, nat_eq, ◌==◌, refl, not, Option, none, some}
use rbacsync.Errors.{ok}
use rbacsync.Integers.{pos}
use rbacsync.Clients.Connections.{Parts, RestConfig, ClientGo, Memory, shallow_copy}
use rbacsync.Clients.Connections.Laws.{Agrees}
use rbacsync.Clients.RbacSyncV1alpha
use rbacsync.Clients.Sets.{Clientset, new_for_config}
use rbacsync.Clients.Sets.Laws.{http_then, through, new_for_config-Agrees}
use rbacsync.Clients.Sets.Sharing.{Shared, new_for_config-Shared}
use rbacsync.Tests.Samples.{other, failures}

-- A connection is told by its user agent and by its rate limiter, a limiter by its number.
abbrev parts : Parts
parts = record {
  Float = ℕ;
  RateLimiter = ℕ;
  Serializer = Unit;
  Settings = Unit;
  HttpClient = String;
  RestInterface = String × Option ℕ;
  DiscoveryClient = Option ℕ;
  Outside = ℕ;
}

abbrev client_go : ClientGo parts failures
client_go = record {
  errorf = other;
  above_zero = λ x. not (x == 0);
  without_conversion = tt;
  default_kubernetes_user_agent = "agent";
  new_token_bucket_rate_limiter = λ qps burst w. (w, suc w);
  http_client_for = λ c w. (ok c.user_agent, w);
  rest_client_for = λ c h w. (ok (c.user_agent, c.rate_limiter), w);
  discovery_client_for = λ c h w. (ok c.rate_limiter, w);
  new_discovery_client = λ c. c.1;
}

-- One config, with QPS but without a limiter.
abbrev config : RestConfig parts
config = record {
  group_version = none;
  api_path = "";
  negotiated_serializer = none;
  user_agent = "";
  qps = 5;
  burst = pos 10;
  rate_limiter = none;
  settings = tt;
}

abbrev memory : Memory parts
memory = record { next = 1; configs = λ p. config; outside = 7 }

abbrev set : Clientset failures parts
set = record {
  discovery_client = some 7;
  rbac_sync_v1alpha_client = record { rest_client = some ("agent", some 7) };
}

new_for_config-Agrees_example :
    Agrees parts memory
      (new_for_config failures parts client_go 0 memory)
      (through failures parts client_go 0 memory (client_go.http_client_for config 7))
    × Agrees parts memory
        (new_for_config failures parts client_go 0 memory)
        (http_then failures parts client_go config (client_go.http_client_for config 7))
new_for_config-Agrees_example = new_for_config-Agrees failures parts client_go 0 memory

new_for_config-Shared_example : Shared failures parts client_go config 7 set
unfolding new_for_config shallow_copy RbacSyncV1alpha.new_for_config_and_client string_eq nat_eq
    ℕ_discrete
new_for_config-Shared_example = new_for_config-Shared failures parts client_go 0 memory set refl
