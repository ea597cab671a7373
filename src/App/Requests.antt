-- ===== src/App/Requests.antt =====
-- cmd/gateway/main.go: what one request does to the gateway in service.
use turnike.Common.{
  suc, Option, List, [], ◌∷◌, All, length, Text, Result, ok, ◌≡◌, ◌≢◌, ◌⊎◌, inl, inr, refl, sym, ap,
  subst, ◌∙◌,
}
use turnike.Config.{Config, Limit}
use turnike.Config.Validate.{Url, Decoded, parse}
use turnike.Metrics.Series.{IsSeries, total, increment_lem, increment-IsSeries, increment-length}
use turnike.Limiter.{Decision}
use turnike.Limiter.Float.{Float}
use turnike.Limiter.Redis.{Script}
use turnike.Limiter.Select.{LimiterError, Backend}
use turnike.Proxy.Identity.{Hosts}
use turnike.Proxy.Gateway.{Reply}
use turnike.Proxy.Table.{Entry}
use turnike.Proxy.Table.Longest.{match-In}
use turnike.Proxy.Middleware.{Observed, middleware}
use turnike.Proxy.Middleware.Mirror.{Ends, middleware-Ends}
use turnike.Proxy.Handler.{
  Served, demo_page, metrics_page, proxied, method_not_allowed, text, dispatch,
}
use turnike.App.Serving.{IsServing, start-IsServing}
use turnike.App.Accounting.{
  after-IsServing, metrics_after, metrics_after_none, metrics_after_one, respond_with-ne-panicked,
}
use turnike.App.{
  App, Incoming, page, panicked, start, checks_of, respond_with, asks, finish, through, handle, run,
}

module _ (fl : Float) (R : Type 0) (script : Script R) (hosts : Hosts)
    (parse_url : Text → Option Url) where
  open fl use {F}

  -- The world that a request's middleware starts from.
  abbrev pub before : App F R → Observed (Backend F R)
  before app = record {
    world = record { limiter = app.backend; requests_total = []; route_prefix = [] };
    observations = app.metrics.request_duration;
  }

  -- How the handler ends: with a page that changes nothing, or through the middleware.
  abbrev pub Handled : Config → App F R → Incoming → Type 0
  Handled c app i =
      ((p : Served) × (p ≢ proxied) × (handle fl R script hosts parse_url app i ≡ (app, page p)))
      ⊎ ((t : Text × Observed (Backend F R) × Reply) × (handle fl R script hosts parse_url app i
            ≡ finish fl R script hosts parse_url app t)
          × Ends (asks fl R script hosts parse_url i.clock) hosts c app.gateway.on_error i.request
              (before app) t)

  pub handle-Handled :
      (d : Decoded) (c : Config) (app : App F R) (i : Incoming)
      → parse parse_url d ≡ ok c
      → IsServing fl R script hosts parse_url c app
      → Handled c app i
  unfolding handle
  handle-Handled d c app i parsed s =
      by_page
        (dispatch app.config.server
          (checks_of fl R script hosts parse_url app.config app.backend i.ping) i.method
          i.request.path)
        refl
    where
      asked : Text → Limit → Backend F R → Backend F R × Result LimiterError Decision
      asked = asks fl R script hosts parse_url i.clock

      sent : List Entry → Text × Observed (Backend F R) × Reply
      sent t =
          middleware asked hosts t app.gateway.on_error i.random i.request_id i.request (before app)

      by_page :
          (p : Served)
          → dispatch app.config.server
              (checks_of fl R script hosts parse_url app.config app.backend i.ping)
              i.method
              i.request.path
            ≡ p
          → Handled c app i
      by_page demo_page e = inl (demo_page, (λ x. cc), rw e refl)
      by_page metrics_page e = inl (metrics_page, (λ x. cc), rw e refl)
      by_page method_not_allowed e = inl (method_not_allowed, (λ x. cc), rw e refl)
      by_page (text status body) e = inl (text status body, (λ x. cc), rw e refl)
      by_page proxied e = inr (
        sent app.gateway.table,
        rw e (unfold through in refl),
        subst (λ t. Ends asked hosts c app.gateway.on_error i.request (before app) (sent t))
            (sym s.table)
            (middleware-Ends asked hosts parse_url d c app.gateway.on_error i.random i.request_id
              i.request (before app) parsed),
      )

  finish-IsServing :
      (c : Config) (app : App F R) (i : Incoming) (id : Text) (o : Observed (Backend F R))
      (reply : Reply)
      → IsServing fl R script hosts parse_url c app
      → Ends
          (asks fl R script hosts parse_url i.clock)
          hosts
          c
          app.gateway.on_error
          i.request
          (before app)
          (id, o, reply)
      → IsServing fl R script hosts parse_url c
          (finish fl R script hosts parse_url app (id, o, reply)).0
        × ((finish fl R script hosts parse_url app (id, o, reply)).1 ≢ panicked)
        × (length (finish fl R script hosts parse_url app (id, o, reply)).0.metrics.requests_total
            ≡ length app.metrics.requests_total)
  unfolding finish respond_with
  finish-IsServing c app i id o reply s (inl (same, missing)) =
      let (counted, observed) =
        metrics_after_none fl R script hosts parse_url app o
          (ap (λ x. x.world.requests_total) same) in
      (
        after-IsServing fl R script hosts parse_url c app o.world.limiter
            (metrics_after fl R script hosts parse_url app o) s
            (λ k h. subst (IsSeries k) (sym counted) h)
            (ap total counted
              ∙ (s.observed ∙ (ap (λ x. x.observations) (sym same) ∙ sym observed))),
        rw missing (λ x. cc),
        ap length counted,
      )
  finish-IsServing c app i id o reply s (inr (e, l, found, logged, seen, sent)) =
      let listed = match-In c.routes i.request.escaped_path e found in
      let (counted, observed) =
        metrics_after_one fl R script hosts parse_url app o (e.route.prefix, l) logged in
      let one_more = (increment_lem (e.route.prefix, l) app.metrics.requests_total).0 in
      (
        after-IsServing fl R script hosts parse_url c app o.world.limiter
            (metrics_after fl R script hosts parse_url app o) s
            (λ k h.
              subst (IsSeries k) (sym counted)
                (increment-IsSeries (e.route.prefix, l) k app.metrics.requests_total h))
            (ap total counted ∙ (one_more ∙ (ap suc s.observed ∙ (sym seen ∙ sym observed)))),
        respond_with-ne-panicked fl R script hosts parse_url c app id app.gateway.on_error e reply s
            listed sent,
        ap length counted
            ∙ increment-length (e.route.prefix, l) app.metrics.requests_total
                ((s.proxied e listed).series l),
      )

  -- A request at a gateway in service leaves it in service: it does not panic, and it makes no series.
  pub handle-IsServing :
      (d : Decoded) (c : Config) (app : App F R) (i : Incoming)
      → parse parse_url d ≡ ok c
      → IsServing fl R script hosts parse_url c app
      → IsServing fl R script hosts parse_url c (handle fl R script hosts parse_url app i).0
        × ((handle fl R script hosts parse_url app i).1 ≢ panicked)
        × (length (handle fl R script hosts parse_url app i).0.metrics.requests_total
            ≡ length app.metrics.requests_total)
  handle-IsServing d c app i parsed s = elim (handle-Handled d c app i parsed s) [
    | inl (p, _, e) ↦ rw e (s, (λ x. cc), refl)
    | inr ((id, o, reply), e, ends) ↦ rw e (finish-IsServing c app i id o reply s ends)
  ]

  run-IsServing_from :
      (d : Decoded) (c : Config) (app : App F R) (is : List Incoming)
      → parse parse_url d ≡ ok c
      → IsServing fl R script hosts parse_url c app
      → IsServing fl R script hosts parse_url c (run fl R script hosts parse_url app is).0
        × All (λ r. r ≢ panicked) (run fl R script hosts parse_url app is).1
        × (length (run fl R script hosts parse_url app is).0.metrics.requests_total
            ≡ length app.metrics.requests_total)
  unfolding run
  run-IsServing_from d c app [] parsed s = (s, tt, refl)
  run-IsServing_from d c app (i ∷ is) parsed s =
      let (kept, fine, same) = handle-IsServing d c app i parsed s in
      let (last, all_fine, as_many) =
        run-IsServing_from d c (handle fl R script hosts parse_url app i).0 is parsed kept in
      (last, (fine, all_fine), as_many ∙ same)

  -- A configuration that parsed starts, and then, whatever requests come and whatever redis answers:
  -- no request panics on a missing reverse proxy, the gateway stays in service, with as many
  -- observations as counted requests, and no request makes a series of the counter.
  pub run-IsServing :
      (d : Decoded) (c : Config) (server : R) (is : List Incoming)
      → parse parse_url d ≡ ok c
      → (app : App F R) × (start fl R script hosts parse_url c server ≡ ok app)
        × IsServing fl R script hosts parse_url c (run fl R script hosts parse_url app is).0
        × All (λ r. r ≢ panicked) (run fl R script hosts parse_url app is).1
        × (length (run fl R script hosts parse_url app is).0.metrics.requests_total
            ≡ length app.metrics.requests_total)
  run-IsServing d c server is parsed =
      let (app, started, s) = start-IsServing fl R script hosts parse_url d c server parsed in
      let (last, fine, as_many) = run-IsServing_from d c app is parsed s in
      (app, started, last, fine, as_many)
