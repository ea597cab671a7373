-- ===== src/Proxy/Handler.antt =====
-- internal/proxy/handler.go: the dispatch of NewHandler. What the metrics handler and the gateway
-- answer is not this file's: they are outcomes. The pages that it writes itself are in
-- Proxy/Handler/Pages.
pub mod Pages
use turnike.Common.{
  Bool, true, false, ◌&&◌, ◌||◌, ℕ, List, [], ◌∷◌, Text, text_eq, text_eq_iff, codes, if◌then◌else◌,
  ◌≡◌, ◌≢◌, ◌↔◌, ◌⊎◌, arith,
}
use turnike.Config.{Server, Limiter, backend_redis, on_error_fail_open}

-- Which branch answers: the demo page, the metrics handler, the gateway behind the middleware, the
-- 405 of the method guard, or another text.
pub data Served : Type 0 where
  demo_page metrics_page proxied method_not_allowed : Served
  text : (status : ℕ) → (body : Text) → Served

abbrev pub is_get_or_head : Text → Bool
is_get_or_head method = text_eq method (codes "GET") || text_eq method (codes "HEAD")

abbrev pub body_ok : Text
body_ok = codes "ok"

abbrev pub body_not_ready : Text
body_not_ready = codes "not ready"

abbrev pub body_not_found : Text
body_not_found = codes "not found"

-- The loop over the readiness checks: the first failure answers.
ready : List Bool → Served
ready [] = text 200 body_ok
ready (true ∷ checks) = ready checks
ready (false ∷ checks) = text 503 body_not_ready

abbrev is_reserved : Text → Bool
is_reserved path =
    text_eq path (codes "/healthz")
    || (text_eq path (codes "/readyz") || text_eq path (codes "/metrics"))

reserved : List Bool → Text → Served
unfolding ready
reserved checks path =
    if text_eq path (codes "/metrics")
    then metrics_page
    else (if text_eq path (codes "/healthz") then text 200 body_ok else ready checks)

unfoldable pub dispatch : Server → List Bool → Text → Text → Served
unfolding reserved
dispatch s checks method path =
    if s.demo_page && text_eq path (codes "/")
    then (if is_get_or_head method then demo_page else method_not_allowed)
    else (if s.metrics_disabled && text_eq path (codes "/metrics")
        then text 404 body_not_found
        else (if is_reserved path
            then (if is_get_or_head method then reserved checks path else method_not_allowed)
            else proxied))

-- The policy that the gateway gets: redis failures only.
unfoldable pub gateway_on_error : Limiter → Text
gateway_on_error l =
    if text_eq l.backend backend_redis then l.redis.on_error else on_error_fail_open

-- The paths that the handler keeps for itself.
abbrev pub IsReserved : Server → Text → Type 0
IsReserved s path =
    ((s.demo_page ≡ true) × (path ≡ codes "/"))
    ⊎ ((path ≡ codes "/healthz") ⊎ ((path ≡ codes "/readyz") ⊎ (path ≡ codes "/metrics")))

ready-ne-proxied : (checks : List Bool) → ready checks ≢ proxied
unfolding ready
ready-ne-proxied [] = λ e. cc
ready-ne-proxied (true ∷ checks) = ready-ne-proxied checks
ready-ne-proxied (false ∷ checks) = λ e. cc

-- A request goes through the middleware to the gateway exactly if its path is not reserved,
-- whatever its method.
dispatch-proxied :
    (s : Server) (checks : List Bool) (method path : Text)
    → (dispatch s checks method path ≡ proxied) ↔ (¬ IsReserved s path)
unfolding dispatch
dispatch-proxied s checks method path = ground (
  arith,
  text_eq_iff path (codes "/"),
  text_eq_iff path (codes "/healthz"),
  text_eq_iff path (codes "/readyz"),
  text_eq_iff path (codes "/metrics"),
  ready-ne-proxied checks,
)

-- The readiness probe answers for its checks, of which there is at most one.
pub dispatch-readyz :
    (s : Server) (ping : Bool)
    → (dispatch s [] (codes "GET") (codes "/readyz") ≡ text 200 body_ok)
      × (dispatch s (ping ∷ []) (codes "GET") (codes "/readyz")
          ≡ (if ping then text 200 body_ok else text 503 body_not_ready))
unfolding dispatch text_eq ready
dispatch-readyz s true = ground arith
dispatch-readyz s false = ground arith
