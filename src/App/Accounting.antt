-- ===== src/App/Accounting.antt =====
-- cmd/gateway/main.go: the metrics after a request, and the replies that have a reverse proxy.
use turnike.Common.{Option, [], ◌∷◌, In, Text, ◌≡◌, ◌≢◌, inl, inr, refl, ◌∙◌}
use turnike.Config.{Config}
use turnike.Config.Validate.{Url}
use turnike.Metrics.{SeriesKey, Metrics, increment, set_active_backend}
use turnike.Metrics.Series.{IsSeries, total}
use turnike.Limiter.Float.{Float}
use turnike.Limiter.Redis.{Script}
use turnike.Limiter.Select
use turnike.Limiter.Select.{LimiterError, Backend, in_memory, in_redis, NewError}
use turnike.Proxy.Identity.{Hosts}
use turnike.Proxy.Gateway.{Reply}
use turnike.Proxy.Gateway.Outcomes.{IsReply}
use turnike.Proxy.Table.{Entry, new_table}
use turnike.Proxy.Middleware.{Observed}
use turnike.App.Serving.{IsServing}
use turnike.App.{App, panicked, count_all, via, respond_with}

show-series :
    (fl : Float) (R : Type 0) (b : Backend fl.F R) (m : Metrics)
    → ((Select.show fl R b m).requests_total ≡ m.requests_total)
      × ((Select.show fl R b m).request_duration ≡ m.request_duration)
unfolding Select.show set_active_backend
show-series fl R (in_memory s) m = (refl, refl)
show-series fl R (in_redis s) m = (refl, refl)

module _ (fl : Float) (R : Type 0) (script : Script R) (hosts : Hosts)
    (parse_url : Text → Option Url) where
  open fl use {F}

  -- An app after a request, with its metrics.
  abbrev pub after : App F R → Backend F R → Metrics → App F R
  after app b m = record app { backend = b; metrics = m }

  pub after-IsServing :
      (c : Config) (app : App F R) (b : Backend F R) (m : Metrics)
      → IsServing fl R script hosts parse_url c app
      → ((k : SeriesKey) → IsSeries k app.metrics.requests_total → IsSeries k m.requests_total)
      → total m.requests_total ≡ m.request_duration
      → IsServing fl R script hosts parse_url c (after app b m)
  after-IsServing c app b m s kept observed = record {
    config = s.config;
    table = s.table;
    on_error = s.on_error;
    proxied = λ e listed. record {
      proxy = (s.proxied e listed).proxy;
      found = (s.proxied e listed).found;
      upstream = (s.proxied e listed).upstream;
      target = (s.proxied e listed).target;
      series = λ l. kept (e.route.prefix, l) ((s.proxied e listed).series l);
    };
    observed = observed;
  }

  -- The process's metrics after a request that was counted under these series.
  abbrev pub metrics_after : App F R → Observed (Backend F R) → Metrics
  metrics_after app o =
      Select.show fl R o.world.limiter (
        count_all o.world.requests_total (record app.metrics { request_duration = o.observations }))

  pub metrics_after_none :
      (app : App F R) (o : Observed (Backend F R))
      → o.world.requests_total ≡ []
      → ((metrics_after app o).requests_total ≡ app.metrics.requests_total)
        × ((metrics_after app o).request_duration ≡ o.observations)
  unfolding count_all
  metrics_after_none app o h =
      let shown = show-series fl R o.world.limiter (
        count_all o.world.requests_total
          (record app.metrics { request_duration = o.observations })) in
      (shown.0 ∙ rw h refl, shown.1 ∙ rw h refl)

  pub metrics_after_one :
      (app : App F R) (o : Observed (Backend F R)) (k : SeriesKey)
      → o.world.requests_total ≡ k ∷ []
      → ((metrics_after app o).requests_total ≡ increment k app.metrics.requests_total)
        × ((metrics_after app o).request_duration ≡ o.observations)
  unfolding count_all
  metrics_after_one app o k h =
      let shown = show-series fl R o.world.limiter (
        count_all o.world.requests_total
          (record app.metrics { request_duration = o.observations })) in
      (shown.0 ∙ rw h refl, shown.1 ∙ rw h refl)

  pub respond_with-ne-panicked :
      (c : Config) (app : App F R) (id : Text) (on_error : Text) (e : Entry) (reply : Reply)
      → IsServing fl R script hosts parse_url c app
      → In e (new_table c.routes)
      → IsReply on_error e reply
      → respond_with fl R script hosts parse_url app id reply ≢ panicked
  unfolding respond_with via
  respond_with-ne-panicked c app id on_error e reply s listed (inl (hs, h)) =
      rw (h, (s.proxied e listed).found) (λ x. cc)
  respond_with-ne-panicked c app id on_error e reply s listed (inr (inl (hs, h))) = rw h (λ x. cc)
  respond_with-ne-panicked c app id on_error e reply s listed (inr (inr (_, (hs, h)))) =
      rw h (λ x. cc)
