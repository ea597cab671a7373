-- ===== src/App.antt =====
-- cmd/gateway/main.go: serve puts the parts together. The listener, the HTTP server and its timeouts
-- are left out of the request's path; the order in which they are shut is App/Shutdown.
pub mod Serving
pub mod Accounting
pub mod Requests
pub mod Answers
pub mod Shutdown
pub mod Main
pub mod Concurrent
pub mod Tests
use turnike.Common.{
  ℕ, Bool, Option, none, some, List, [], ◌∷◌, Text, text_eq, Result, ok, err, if◌then◌else◌,
}
use turnike.Config.{Config, Limit, on_error_fail_closed}
use turnike.Config.Validate.{Url}
use turnike.Metrics.{Metrics, Label, new_metrics, increment}
use turnike.Limiter.{Decision}
use turnike.Limiter.Float.{Float}
use turnike.Limiter.Redis.{Script, Clock}
use turnike.Limiter.Select
use turnike.Limiter.Select.{Backend, in_memory, in_redis, LimiterError, NewError}
use turnike.Proxy.Identity.{Hosts, Request}
use turnike.Proxy.Gateway.{World, Header, Reply, answer, forward}
use turnike.Proxy.Upstreams.{Gateway, GatewayError, ReverseProxy, new_gateway, proxy_of}
use turnike.Proxy.Middleware.{Observed, middleware}
use turnike.Proxy.Handler.{
  Served, demo_page, metrics_page, proxied, method_not_allowed, text, dispatch, gateway_on_error,
}

-- Why serve returns before it listens.
pub data StartError : Type 0 where
  no_limiter : NewError → StartError
  no_gateway : GatewayError → StartError

pub record App (F R : Type 0) : Type 0 where
  pub config : Config
  pub gateway : Gateway
  pub backend : Backend F R
  pub metrics : Metrics

-- A request with what its handling reads besides: the inbound request id, random bytes, the clock, and
-- whether redis answers a ping.
pub record Incoming : Type 0 where
  pub method : Text
  pub request : Request
  pub request_id : Text
  pub random : List ℕ
  pub clock : Clock
  pub ping : Bool

-- `panicked` is a nil reverse proxy.
pub data Response : Type 0 where
  page : Served → Response
  answered : (id : Text) → (status : ℕ) → List Header → Response
  forwarded : (id : Text) → ReverseProxy → List Header → Response
  panicked : Response

-- The increments of one request, the last one first.
pub count_all : List (Text × Label) → Metrics → Metrics
count_all [] m = m
count_all (k ∷ ks) m =
    let m' = count_all ks m in record m' { requests_total = increment k m'.requests_total }

pub via : Text → List Header → Option ReverseProxy → Response
via id hs none = panicked
via id hs (some p) = forwarded id p hs

module _ (fl : Float) (R : Type 0) (script : Script R) (hosts : Hosts)
    (parse_url : Text → Option Url) where
  open fl use {F}

  with_gateway :
      Config → Backend F R → Metrics × Result GatewayError Gateway → Result StartError (App F R)
  with_gateway c b (m, ok g) = ok (record { config = c; gateway = g; backend = b; metrics = m })
  with_gateway c b (m, err e) = err (no_gateway e)

  with_limiter : Config → Metrics × Result NewError (Backend F R) → Result StartError (App F R)
  unfolding with_gateway
  with_limiter c (m, ok b) =
      with_gateway c b (new_gateway parse_url c.routes (gateway_on_error c.limiter) m)
  with_limiter c (m, err e) = err (no_limiter e)

  -- serve up to where it listens; `server` is redis as it stands.
  unfoldable pub start : Config → R → Result StartError (App F R)
  unfolding with_limiter
  start c server = with_limiter c (Select.new fl R c.limiter server new_metrics)

  -- The readiness checks' outcomes: the ping gates readiness only under fail_closed.
  pub checks_of : Config → Backend F R → Bool → List Bool
  checks_of c (in_memory m) ping = []
  checks_of c (in_redis s) ping =
      if text_eq c.limiter.redis.on_error on_error_fail_closed then ping ∷ [] else []

  pub respond_with : App F R → Text → Reply → Response
  unfolding via
  respond_with app id (answer status hs) = answered id status hs
  respond_with app id (forward e hs) = via id hs (proxy_of app.gateway e)

  abbrev pub asks : Clock → Text → Limit → Backend F R → Backend F R × Result LimiterError Decision
  asks clock key l b = Select.allow fl R script clock key l b

  -- The metrics of a request start as the process's: its increments and its observation go there.
  pub finish : App F R → Text × Observed (Backend F R) × Reply → App F R × Response
  unfolding count_all respond_with
  finish app (id, o, reply) = (
    record app {
      backend = o.world.limiter;
      metrics = Select.show fl R o.world.limiter (
          count_all o.world.requests_total
            (record app.metrics { request_duration = o.observations }));
    },
    respond_with app id reply,
  )

  through : App F R → Incoming → App F R × Response
  unfolding finish
  through app i = finish app (
      middleware (asks i.clock) hosts app.gateway.table app.gateway.on_error i.random i.request_id
        i.request
        (record {
          world = record { limiter = app.backend; requests_total = []; route_prefix = [] };
          observations = app.metrics.request_duration;
        }))

  served : App F R → Incoming → Served → App F R × Response
  unfolding through
  served app i demo_page = (app, page demo_page)
  served app i metrics_page = (app, page metrics_page)
  served app i method_not_allowed = (app, page method_not_allowed)
  served app i (text status body) = (app, page (text status body))
  served app i proxied = through app i

  -- The handler of NewHandler, on one request.
  unfoldable pub handle : App F R → Incoming → App F R × Response
  unfolding served checks_of
  handle app i =
      served app i (
        dispatch app.config.server (checks_of app.config app.backend i.ping) i.method
          i.request.path)

  -- Requests one after the other.
  pub run : App F R → List Incoming → App F R × List Response
  run app [] = (app, [])
  run app (i ∷ is) = let rest = run (handle app i).0 is in (rest.0, (handle app i).1 ∷ rest.1)
