-- ===== src/App/Answers.antt =====
-- cmd/gateway/main.go with internal/proxy: who answers that it cannot serve.
use turnike.Common.{
  not, true, false, Option, List, Option-cases, Bool, Text, text_eq, text_eq_iff, codes, ok, ◌≡◌,
  ◌↔◌, inl, inr, refl, sym, ap, ◌∙◌, arith, Bool-cases, if◌then◌else◌,
}
use turnike.Config.{Config, Limiter, Server, backend_redis, on_error_fail_closed}
use turnike.Config.Validate.{Url, Decoded, parse}
use turnike.Limiter.Float.{Float}
use turnike.Limiter.Redis.{Script}
use turnike.Limiter.Select.{Backend, in_memory, in_redis}
use turnike.Proxy.Identity.{Hosts}
use turnike.Proxy.Gateway.{Header, Reply}
use turnike.Proxy.Gateway.Outcomes.{IsReply}
use turnike.Proxy.Table.{Entry}
use turnike.Proxy.Handler.{
  Served, text, body_ok, body_not_ready, dispatch, dispatch-readyz, gateway_on_error,
}
use turnike.Proxy.Upstreams.{proxy_of}
use turnike.App.Serving.{IsServing}
use turnike.App.Requests.{handle-Handled}
use turnike.App.{
  App, Incoming, page, answered, via, respond_with, finish, checks_of, served, handle,
}

-- Only the redis backend gives the gateway its fail_closed policy.
closed_policy :
    (l : Limiter)
    → gateway_on_error l ≡ on_error_fail_closed
    → (l.backend ≡ backend_redis) × (l.redis.on_error ≡ on_error_fail_closed)
unfolding gateway_on_error
closed_policy l h = elim (Bool-cases (text_eq l.backend backend_redis)) [
  | inl redis ↦ ((text_eq_iff l.backend backend_redis).0 redis, rw redis at h)
  | inr other ↦ absurd (cc (rw other at h))
]

module _ (fl : Float) (R : Type 0) (script : Script R) (hosts : Hosts)
    (parse_url : Text → Option Url) where
  open fl use {F}

  respond_with-unavailable :
      (app : App F R) (id : Text) (e : Entry) (reply : Reply) (id' : Text) (hs : List Header)
      → IsReply app.gateway.on_error e reply
      → respond_with fl R script hosts parse_url app id reply ≡ answered id' 503 hs
      → app.gateway.on_error ≡ on_error_fail_closed
  unfolding respond_with via
  respond_with-unavailable app id e reply id' hs (inl (hs', h)) r =
      elim (Option-cases (proxy_of app.gateway e)) [
        | inl missing ↦ absurd (cc (rw (h, missing) at r))
        | inr (p, found) ↦ absurd (cc (rw (h, found) at r))
      ]
  respond_with-unavailable app id e reply id' hs (inr (inl (hs', h))) r =
      absurd (ground (arith, h, r))
  respond_with-unavailable app id e reply id' hs (inr (inr (closed, _))) r = closed

  -- At a gateway in service, whose configuration parsed, a request through the gateway is
  -- answered 503 only under the redis backend with fail_closed.
  pub handle-unavailable :
      (d : Decoded) (c : Config) (app : App F R) (i : Incoming) (id : Text) (hs : List Header)
      → parse parse_url d ≡ ok c
      → IsServing fl R script hosts parse_url c app
      → (handle fl R script hosts parse_url app i).1 ≡ answered id 503 hs
      → (c.limiter.backend ≡ backend_redis) × (c.limiter.redis.on_error ≡ on_error_fail_closed)
  unfolding finish respond_with
  handle-unavailable d c app i id hs parsed s h =
      elim (handle-Handled fl R script hosts parse_url d c app i parsed s) [
        | inl (p, _, e) ↦ absurd (cc (sym (ap (λ x. x.1) e) ∙ h))
        | inr ((id', o, reply), e, inl (_, missing)) ↦
            absurd (ground (arith, missing, sym (ap (λ x. x.1) e) ∙ h))
        | inr ((id', o, reply), e, inr (entry, l, _, _, _, sent)) ↦ closed_policy c.limiter (
            sym s.on_error
            ∙ respond_with-unavailable app id' entry reply id hs sent (sym (ap (λ x. x.1) e) ∙ h))
      ]

  -- The backend is redis.
  abbrev pub IsRedis : Backend F R → Type 0
  IsRedis (in_memory m) = ⊥
  IsRedis (in_redis s) = Unit

  probe :
      (c : Config) (s : Server) (b : Backend F R) (ping : Bool)
      → (failed : Bool) × (dispatch s
            (checks_of fl R script hosts parse_url c b ping)
            (codes "GET")
            (codes "/readyz")
          ≡ (if failed then text 503 body_not_ready else text 200 body_ok))
        × ((failed ≡ true)
            ↔ (IsRedis b × (c.limiter.redis.on_error ≡ on_error_fail_closed) × (ping ≡ false)))
  unfolding checks_of
  probe c s (in_memory m) ping =
      (false, (dispatch-readyz s ping).0, (λ h. absurd (cc), λ h. absurd h.0))
  probe c s (in_redis r) ping =
      elim (Bool-cases (text_eq c.limiter.redis.on_error on_error_fail_closed)) [
        | inl closed ↦ (
          not ping,
          rw closed (with_ping ping (dispatch-readyz s ping).1),
          gated ping ((text_eq_iff c.limiter.redis.on_error on_error_fail_closed).0 closed),
        )
        | inr other ↦ (
          false,
          rw other (dispatch-readyz s ping).0,
          (
            λ h. absurd (cc),
            λ h. absurd (
                cc (sym other ∙ (text_eq_iff c.limiter.redis.on_error on_error_fail_closed).1 h.1)),
          ),
        )
      ]
    where
      with_ping :
          (p : Bool) {d : Served}
          → d ≡ (if p then text 200 body_ok else text 503 body_not_ready)
          → d ≡ (if not p then text 503 body_not_ready else text 200 body_ok)
      with_ping true e = e
      with_ping false e = e

      gated :
          (p : Bool)
          → c.limiter.redis.on_error ≡ on_error_fail_closed
          → (not p ≡ true)
            ↔ (Unit {0} × (c.limiter.redis.on_error ≡ on_error_fail_closed) × (p ≡ false))
      gated true e = (λ h. absurd (cc), λ h. absurd (cc (h.2)))
      gated false e = (λ h. (tt, e, refl), λ h. refl)

  answered_503 :
      (app : App F R) (i : Incoming) {P : Type 0} (failed : Bool)
      → (failed ≡ true) ↔ P
      → ((served fl R script hosts parse_url app i
            (if failed then text 503 body_not_ready else text 200 body_ok)).1
          ≡ page (text 503 body_not_ready))
        ↔ P
  unfolding served
  answered_503 app i true exact = (λ h. exact.0 refl, λ h. refl)
  answered_503 app i false exact = (λ h. absurd (cc), λ h. absurd (cc (exact.1 h)))

  -- A GET of /readyz is answered 503 exactly where the instance cannot serve without redis: the
  -- backend is redis with fail_closed, and redis does not answer the ping.
  pub handle-readyz :
      (app : App F R) (i : Incoming)
      → i.method ≡ codes "GET"
      → i.request.path ≡ codes "/readyz"
      → ((handle fl R script hosts parse_url app i).1 ≡ page (text 503 body_not_ready)) ↔ (
          IsRedis app.backend
          × (app.config.limiter.redis.on_error ≡ on_error_fail_closed)
          × (i.ping ≡ false))
  unfolding handle served
  handle-readyz app i get path =
      let (failed, probed, exact) = probe app.config app.config.server app.backend i.ping in
      let reached : dispatch app.config.server
            (checks_of fl R script hosts parse_url app.config app.backend i.ping) i.method
            i.request.path
          ≡ (if failed then text 503 body_not_ready else text 200 body_ok) =
        rw (get, path) probed in
      rw reached (answered_503 app i failed exact)
