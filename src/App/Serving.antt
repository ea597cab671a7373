-- ===== src/App/Serving.antt =====
-- cmd/gateway/main.go: what holds of the running gateway from where it listens.
use turnike.Common.{Option, In, Text, ok, ◌≡◌, refl, sym, ◌∙◌}
use turnike.Config.{Config}
use turnike.Config.Validate.{Url, Decoded, parse}
use turnike.Config.Validate.Sound.{parse-IsSound}
use turnike.Metrics.Series.{total}
use turnike.Limiter.Float.{Float}
use turnike.Limiter.Redis.{Script}
use turnike.Limiter.Select
use turnike.Limiter.Select.{Backend, in_memory, in_redis, NewError}
use turnike.Proxy.Identity.{Hosts}
use turnike.Proxy.Table.{Entry, new_table}
use turnike.Proxy.Upstreams.Proxies.{init_all}
use turnike.Proxy.Upstreams.Built.{IsProxied, built, new_gateway-built, built-IsProxied}
use turnike.Proxy.Handler.{gateway_on_error}
use turnike.App.{App, with_gateway, with_limiter, start}

module _ (fl : Float) (R : Type 0) (script : Script R) (hosts : Hosts)
    (parse_url : Text → Option Url) where
  open fl use {F}

  -- The gateway of a configuration, in service: its table and policy, a reverse proxy and every series
  -- for each of its routes, and as many observations as counted requests.
  pub record IsServing (c : Config) (app : App F R) : Type 0 where
    pub config : app.config ≡ c
    pub table : app.gateway.table ≡ new_table c.routes
    pub on_error : app.gateway.on_error ≡ gateway_on_error c.limiter
    pub proxied :
        (e : Entry) → In e (new_table c.routes) → IsProxied parse_url app.gateway app.metrics e
    pub observed : total app.metrics.requests_total ≡ app.metrics.request_duration

  -- A configuration that parsed always starts, whatever redis does: no error of serve comes before it
  -- listens, and the gateway that listens is in service.
  pub start-IsServing :
      (d : Decoded) (c : Config) (server : R)
      → parse parse_url d ≡ ok c
      → (app : App F R) × (start fl R script hosts parse_url c server ≡ ok app) × IsServing c app
  unfolding start with_limiter with_gateway built
  start-IsServing d c server parsed =
      let (b, m, made, uncounted, unobserved) =
        Select.new-ok fl R c.limiter server (parse-IsSound parse_url d c parsed).backend in
      let policy = gateway_on_error c.limiter in
      let (gateway_ok, counted, observed) = new_gateway-built parse_url d c policy m parsed in
      (
        record {
          config = c;
          gateway = built parse_url d c policy m parsed;
          backend = b;
          metrics = init_all parse_url (new_table c.routes) m;
        },
        rw (made, gateway_ok) refl,
        record {
          config = refl;
          table = refl;
          on_error = refl;
          proxied = built-IsProxied parse_url d c policy m parsed;
          observed = counted ∙ (rw (uncounted, unobserved) (unfold total in refl)) ∙ sym observed;
        },
      )
