-- ===== src/Proxy/Tests.antt =====
-- The proxy at concrete input.
mod Quotas
use turnike.Common.{
  pos, ◌+ℤ◌, ◌-ℤ◌, floor_mod, ℕ, Bool, true, false, Option, none, some, List, [], ◌∷◌, ◌++◌, All,
  In, Text, text_eq, codes, starts_with, trim_right, Result, ok, err, ◌≡◌, ◌⊎◌, ◌↔◌, refl, arith,
}
use turnike.Config.{
  Limit, Route, Server, Config, algo_fixed_window, backend_memory, on_error_degrade,
  on_error_fail_closed,
}
use turnike.Config.Limits.{limit_for, validate_limit}
use turnike.Config.Validate.{Url, document, parse, normalize}
use turnike.Limiter.{Decision, truncate}
use turnike.Limiter.FixedWindow
use turnike.Limiter.Memory
use turnike.Limiter.Memory.{MemoryLimiter, AllowError, at_capacity, new_memory_limiter}
use turnike.Limiter.Tests.FixedPoint.{fixed_point}
use turnike.Proxy.Paths.{split, has_dot_segments, clean, join}
use turnike.Proxy.Table.{compile, new_table, match}
use turnike.Proxy.Table.Longest.{Covers, Yields, match-longest}
use turnike.Proxy.Identity.{Hosts, Request, identity_for, render}
use turnike.Proxy.Gateway.{
  Header, retry_after, rate_limit_headers, answer, forward, World, quota_key, effective_limit,
  decision_label, respond, serve, retry_seconds, ceil_seconds, leading_power,
}
use turnike.Proxy.Gateway.Answers.{Rounds, respond-denied}
use turnike.Proxy.Gateway.System.{memory_backend, IsVerdict, serve-memory}
use turnike.Proxy.Handler.Pages.{own_page, status_of, IsGetOrHead, IsHidden, own_page_iff}
use turnike.Proxy.Handler.{dispatch, demo_page, IsReserved, gateway_on_error}
use turnike.Proxy.Middleware.{Observed}

-- Two requests in ten nanoseconds.
abbrev two_in_ten : Limit
two_in_ten = record { algorithm = algo_fixed_window; rate = pos 2; burst = pos 0; window = pos 10 }

abbrev pub api : Route
api = record {
  prefix = codes "/api/";
  upstream = codes "http://a";
  limit = two_in_ten;
  key_overrides = [];
}

abbrev auth : Route
auth = record api { prefix = codes "/api/auth" }

abbrev routes : List Route
routes = api ∷ auth ∷ []

proxy : Bool
unfolding match new_table clean join split has_dot_segments text_eq starts_with trim_right
proxy = true

auth_matches : match (new_table routes) (codes "/api//auth/x") ≡ some (compile auth)
unfolding proxy
auth_matches = refl

authority_matches_api : match (new_table routes) (codes "/api/authority") ≡ some (compile api)
unfolding proxy
authority_matches_api = refl

match-longest_example :
    In auth routes
    × ((compile auth).prefix ≡ normalize auth.prefix)
    × Covers (clean (codes "/api//auth/x")) (compile auth).prefix
    × All
        (λ r. Yields (clean (codes "/api//auth/x")) (compile auth).prefix (normalize r.prefix))
        routes
match-longest_example = match-longest routes (codes "/api//auth/x") (compile auth) auth_matches

plain_path : has_dot_segments (codes "/api//auth/x") ≡ false
unfolding proxy
plain_path = refl

-- Library functions for the tests: no port to split off, and a text for its own fingerprint.
abbrev pub hosts : Hosts
hosts = record { split_host_port = λ addr. none; fingerprint = λ t. t }

abbrev pub request : Request
request = record {
  path = codes "/api//auth/x";
  escaped_path = codes "/api//auth/x";
  api_key = codes "secret";
  remote_addr = codes "10.0.0.1:1234";
}

abbrev world : World (MemoryLimiter (fixed_point.F))
world = record { limiter = new_memory_limiter fixed_point; requests_total = []; route_prefix = [] }

abbrev decide_at_23 :
    Text
    → Limit
    → MemoryLimiter (fixed_point.F)
    → MemoryLimiter (fixed_point.F) × Result AllowError Decision
decide_at_23 = memory_backend fixed_point hosts (pos 23)

gateway : Bool
unfolding serve match new_table clean join split has_dot_segments text_eq starts_with trim_right
    limit_for identity_for render Memory.allow Memory.step Memory.new_bucket FixedWindow.step
    truncate floor_mod ◌+ℤ◌ ◌-ℤ◌ respond rate_limit_headers decision_label
gateway = true

-- The first request is forwarded and counted.
first_request :
    (serve decide_at_23 hosts (new_table routes) on_error_degrade request world).1
    ≡ forward (compile auth) (
        rate_limit_headers (record {
          allowed = true;
          limit = pos 2;
          remaining = pos 1;
          reset = pos 30;
          retry_after = pos 0;
          degraded = false;
        }))
unfolding gateway
first_request = refl

abbrev denied : Decision
denied = record {
  allowed = false;
  limit = pos 2;
  remaining = pos 0;
  reset = pos 1500000003;
  retry_after = pos 1500000000;
  degraded = false;
}

-- A nanosecond more than 20,000,000 seconds is lost.
wait_shortened : retry_seconds (pos 20000000000000001) ≡ 20000000
unfolding ceil_seconds leading_power
wait_shortened = refl

respond-denied_example :
    (secs : ℕ) × (respond {E = AllowError} on_error_degrade (compile api) (ok denied)
      ≡ answer 429 (rate_limit_headers denied ++ retry_after (pos secs) ∷ []))
    × Rounds (pos 1500000000) secs
respond-denied_example =
    respond-denied AllowError on_error_degrade (compile api) denied refl (omega arith)

abbrev server : Server
server = record {
  listen = codes ":8080";
  metrics_disabled = false;
  demo_page = true;
  read_header_timeout = pos 1;
  read_timeout = pos 1;
  write_timeout = pos 1;
  idle_timeout = pos 1;
  shutdown_timeout = pos 1;
}

-- Fail-closed, but with the memory backend, which never uses that policy.
abbrev pub config : Config
config = record {
  server = server;
  upstream = record { dial_timeout = pos 1; response_header_timeout = pos 1 };
  limiter = record {
    backend = backend_memory;
    redis = record { addr = []; on_error = on_error_fail_closed };
  };
  routes = routes;
}

abbrev pub any_url : Text → Option Url
any_url t = some (record { scheme = codes "http"; host = codes "a" })

config_parses : parse any_url (document config true) ≡ ok config
unfolding parse text_eq starts_with trim_right limit_for validate_limit
config_parses = refl

serve-memory_example :
    let asked =
      decide_at_23
        (quota_key hosts (compile auth) request)
        (effective_limit hosts (compile auth) request)
        world.limiter in
    let reply =
      (serve decide_at_23 hosts
        (new_table routes)
        (gateway_on_error config.limiter)
        request
        world).1 in
    IsVerdict (compile auth) reply
    × (((v : Decision) × (asked.1 ≡ ok v))
        ⊎ ((asked.1 ≡ err (at_capacity 100000)) × (reply ≡ forward (compile auth) [])))
serve-memory_example =
    serve-memory fixed_point hosts (pos 23) any_url (document config true) config request world
      (compile auth) config_parses refl plain_path auth_matches

abbrev zeros : List ℕ
zeros = 0 ∷ 0 ∷ 0 ∷ 0 ∷ 0 ∷ 0 ∷ 0 ∷ 0 ∷ 0 ∷ 0 ∷ 0 ∷ 0 ∷ 0 ∷ 0 ∷ 0 ∷ 0 ∷ []

-- A line break is not let through.

abbrev observed : Observed (MemoryLimiter (fixed_point.F))
observed = record { world = world; observations = 0 }

own_page_iff_example :
    let page = own_page (λ n. []) [] config.server [] (codes "POST") (codes "/healthz") in
    ((status_of page ≡ some 405) ↔ (
      IsReserved config.server (codes "/healthz")
      × (¬ IsHidden config.server (codes "/healthz"))
      × (¬ IsGetOrHead (codes "POST"))))
    × ((status_of page ≡ some 404) ↔ IsHidden config.server (codes "/healthz"))
    × ((dispatch config.server [] (codes "POST") (codes "/healthz") ≡ demo_page) ↔ (
        (config.server.demo_page ≡ true)
        × (codes "/healthz" ≡ codes "/")
        × IsGetOrHead (codes "POST")))
own_page_iff_example = own_page_iff (λ n. []) [] config.server [] (codes "POST") (codes "/healthz")
