-- ===== src/App/Tests.antt =====
-- The gateway command at concrete input: the redis backend with fail_closed, and a redis that answers
-- no call.
mod InFlight
use turnike.Common.{
  pos, ◌+ℤ◌, ◌-ℤ◌, floor_mod, ℕ, suc, Bool, true, false, some, List, [], ◌∷◌, All, In, length,
  last?, text_eq, codes, starts_with, trim_right, Option, Text, Result, ok, err, ◌≡◌, ◌≢◌, ◌⊎◌, ◌↔◌,
  refl, inl, inr,
}
use turnike.Config.{
  Config, Route, algo_fixed_window, backend_redis, backend_memory, on_error_fail_closed,
}
use turnike.Config.Limits.{limit_for, validate_limit}
use turnike.Config.Validate.{document, parse}
use turnike.Metrics.{Metrics, new_metrics}
use turnike.Limiter.Redis.{Script, failed_call, Clock}
use turnike.Limiter.Redis
use turnike.Limiter.Breaker
use turnike.Limiter.Select
use turnike.Proxy.Upstreams
use turnike.Proxy.Upstreams.{Gateway}
use turnike.Proxy.Upstreams.Built.{IsProxied, new_gateway-IsProxied}
use turnike.Limiter.Tests.FixedPoint.{fixed_point}
use turnike.Limiter.Memory.{new_memory_limiter}
use turnike.Limiter.Select.{in_memory}
use turnike.Proxy.Identity.{identity_for, render}
use turnike.Proxy.Gateway.{
  ceil_seconds, leading_power, retry_after, Header, respond, serve, rate_limit_headers,
}
use turnike.Proxy.Handler.{gateway_on_error, dispatch, text, body_not_ready}
use turnike.Proxy.Table.{compile, new_table, match}
use turnike.Proxy.Paths.{clean, join, split, has_dot_segments}
use turnike.Proxy.Middleware.{middleware}
use turnike.Proxy.Tests.{config, any_url, hosts, request, api}
use turnike.App.{App, Incoming, StartError, answered, panicked, page, start, handle, run}
use turnike.App.Serving.{IsServing, start-IsServing}
use turnike.App.Requests.{run-IsServing}
use turnike.App.Answers.{IsRedis, handle-unavailable, handle-readyz}
use turnike.App.Main.{main, main_exit}
use turnike.Config.Load.{LoadError, load}
use turnike.App.Shutdown
use turnike.App.Shutdown.{Life, cancelled, close_redis, serve_returned}

-- Two requests in ten microseconds.
abbrev limited_api : Route
limited_api = record api {
  limit = record { algorithm = algo_fixed_window; rate = pos 2; burst = pos 0; window = pos 10000 };
}

abbrev with_redis : Config
with_redis = record config {
  limiter = record {
    backend = backend_redis;
    redis = record { addr = codes "redis:6379"; on_error = on_error_fail_closed };
  };
  routes = limited_api ∷ [];
}

with_redis_parses : parse any_url (document with_redis true) ≡ ok with_redis
unfolding parse text_eq starts_with trim_right limit_for validate_limit
with_redis_parses = refl

-- The server counts the calls that reach it.
abbrev down : Script ℕ
down algorithm key args n = (suc n, err failed_call)

abbrev incoming : Incoming
incoming = record {
  method = codes "GET";
  request = record request { path = codes "/api/x"; escaped_path = codes "/api/x" };
  request_id = [];
  random = [];
  clock = record { admitted = pos 23; recorded = pos 24; fallback = pos 25 };
  ping = false;
}

run-IsServing_example :
    (app : App (fixed_point.F) ℕ) × (start fixed_point ℕ down hosts any_url with_redis 0 ≡ ok app)
    × IsServing fixed_point ℕ down hosts any_url with_redis
        (run fixed_point ℕ down hosts any_url app (incoming ∷ incoming ∷ [])).0
    × All
        (λ r. r ≢ panicked)
        (run fixed_point ℕ down hosts any_url app (incoming ∷ incoming ∷ [])).1
    × (length
          (run fixed_point ℕ down hosts any_url app
            (incoming ∷ incoming ∷ [])).0.metrics.requests_total
        ≡ length app.metrics.requests_total)
run-IsServing_example =
    run-IsServing fixed_point ℕ down hosts any_url (document with_redis true) with_redis 0
      (incoming ∷ incoming ∷ []) with_redis_parses

command : Bool
unfolding start handle Redis.allow Redis.window_micros serve match new_table clean join split
    has_dot_segments text_eq starts_with trim_right limit_for identity_for render respond
    rate_limit_headers ◌+ℤ◌ ◌-ℤ◌ floor_mod dispatch Select.new Select.allow Upstreams.new_gateway
    middleware Breaker.admit Redis.new_redis_limiter gateway_on_error
command = true

abbrev nothing : App (fixed_point.F) ℕ
nothing = record {
  config = with_redis;
  gateway = record { table = []; proxies = []; on_error = [] };
  backend = in_memory (new_memory_limiter fixed_point);
  metrics = new_metrics;
}

abbrev app_of : Result StartError (App (fixed_point.F) ℕ) → App (fixed_point.F) ℕ
app_of (ok app) = app
app_of (err e) = nothing

abbrev app : App (fixed_point.F) ℕ
app = app_of (start fixed_point ℕ down hosts any_url with_redis 0)

app-IsServing : IsServing fixed_point ℕ down hosts any_url with_redis app
app-IsServing =
    let (made, started, serves) =
      start-IsServing fixed_point ℕ down hosts any_url (document with_redis true) with_redis 0
        with_redis_parses in
    rw started serves

abbrev unavailable : List Header
unavailable = retry_after (pos 1) ∷ []

answer_here : (handle fixed_point ℕ down hosts any_url app incoming).1 ≡ answered [] 503 unavailable
unfolding command ceil_seconds leading_power
answer_here = refl

handle-unavailable_example :
    (backend_redis ≡ backend_redis) × (on_error_fail_closed ≡ on_error_fail_closed)
handle-unavailable_example =
    handle-unavailable fixed_point ℕ down hosts any_url (document with_redis true) with_redis app
      incoming [] unavailable with_redis_parses app-IsServing answer_here

abbrev probing : Incoming
probing = record incoming { request = record request { path = codes "/readyz" } }

handle-readyz_example :
    ((handle fixed_point ℕ down hosts any_url app probing).1 ≡ page (text 503 body_not_ready)) ↔ (
      IsRedis fixed_point ℕ down hosts any_url app.backend
      × (app.config.limiter.redis.on_error ≡ on_error_fail_closed)
      × (probing.ping ≡ false))
handle-readyz_example = handle-readyz fixed_point ℕ down hosts any_url app probing refl refl

new_gateway-IsProxied_example :
    (m' : Metrics) × (g : Gateway) × (Upstreams.new_gateway any_url with_redis.routes
        on_error_fail_closed new_metrics
      ≡ (m', ok g))
    × (g.table ≡ new_table with_redis.routes)
    × (g.on_error ≡ on_error_fail_closed)
    × IsProxied any_url g m' (compile limited_api)
unfolding new_table
new_gateway-IsProxied_example =
    new_gateway-IsProxied any_url (document with_redis true) with_redis on_error_fail_closed
      new_metrics (compile limited_api) with_redis_parses (inl refl)

abbrev busy : Life
busy = record {
  bound = true;
  limiter_made = true;
  redis = true;
  handler_made = true;
  event = cancelled false;
}

abbrev reading : Text → Option (List ℕ)
reading path = some []

main_exit_example :
    let (actions, code) =
      main fixed_point ℕ any_url
        (λ content. document with_redis true)
        reading
        (codes "config.yaml")
        0
        (record { bound = true; event = cancelled false }) in
    let loaded = load any_url (λ content. document with_redis true) reading (codes "config.yaml") in
    ((code ≡ 0) ↔ (
      (c : Config) × (loaded ≡ ok c)
      × (◌≡◌ {A = Bool} true true)
      × ((cancelled false ≡ serve_returned true) ⊎ (cancelled false ≡ cancelled true))))
    × (In close_redis actions ↔ (
        (c : Config) × (loaded ≡ ok c)
        × (◌≡◌ {A = Bool} true true)
        × (c.limiter.backend ≡ backend_redis)))
    × ((actions ≡ []) ↔ (((e : LoadError) × (loaded ≡ err e)) ⊎ (◌≡◌ {A = Bool} true false)))
main_exit_example =
    main_exit fixed_point ℕ any_url (λ content. document with_redis true) reading
      (codes "config.yaml") 0 (record { bound = true; event = cancelled false })
