-- ===== src/Proxy/Gateway/System.antt =====
-- The gateway over the memory backend, under a configuration that parsed: cmd/gateway/main.go puts
-- these parts together (limiter.New, NewHandler, NewGateway).
use turnike.Common.{
  pos, false, Option, some, List, [], ◌∷◌, ◌++◌, All-In, Text, text_eq, Result, ok, err, ◌≡◌, ◌⊎◌,
  inl, inr, refl, ap, ◌∙◌, Bool-cases,
}
use turnike.Config.{Config, Limit, backend_memory, backend_redis, on_error_fail_open}
use turnike.Config.Validate.{Url, Decoded, parse}
use turnike.Config.Validate.Routes.{IsValidRoute}
use turnike.Config.Validate.Sound.{parse-IsSound}
use turnike.Limiter.{Time, Decision}
use turnike.Limiter.Float.{Float}
use turnike.Limiter.Memory
use turnike.Limiter.Memory.{MemoryLimiter, AllowError, at_capacity}
use turnike.Limiter.Memory.Capacity.{allow-outcome}
use turnike.Proxy.Identity.{Hosts, Request, identity_for}
use turnike.Proxy.Paths.{has_dot_segments}
use turnike.Proxy.Table.{Entry, match, new_table}
use turnike.Proxy.Table.Longest.{match-longest}
use turnike.Proxy.Handler.{gateway_on_error}
use turnike.Proxy.Gateway.{
  retry_seconds, retry_after, Reply, answer, forward, Header, World, quota_key, effective_limit,
  respond, serve, check, route, rate_limit_headers, too_many_requests,
}

-- A reply that a client of a healthy gateway can get on a route.
abbrev pub IsVerdict : Entry → Reply → Type 0
IsVerdict e reply =
    ((hs : List Header) × (reply ≡ forward e hs)) ⊎ ((hs : List Header) × (reply ≡ answer 429 hs))

full_map_forwards :
    (e : Entry) (x : AllowError) → respond on_error_fail_open e (err x) ≡ forward e []
unfolding respond text_eq
full_map_forwards e x = refl

respond-IsVerdict :
    (e : Entry) (o : Result AllowError Decision) → IsVerdict e (respond on_error_fail_open e o)
unfolding respond too_many_requests text_eq
respond-IsVerdict e (err x) = inl ([], refl)
respond-IsVerdict e (ok d) = elim (Bool-cases d.allowed) [
  | inl granted ↦ inl (rate_limit_headers d, rw granted)
  | inr refused ↦
      inr (rate_limit_headers d ++ retry_after (pos (retry_seconds d.retry_after)) ∷ [], rw refused)
]

memory_fails_open :
    (c : Config)
    → c.limiter.backend ≡ backend_memory
    → gateway_on_error c.limiter ≡ on_error_fail_open
unfolding gateway_on_error text_eq
memory_fails_open c e = rw (ap (λ b. text_eq b backend_redis) e)

module _ (fl : Float) (hosts : Hosts) (now : Time) where
  open fl use {F}

  abbrev pub memory_backend :
      Text → Limit → MemoryLimiter F → MemoryLimiter F × Result AllowError Decision
  memory_backend key l m = Memory.allow fl key l now m

  -- Under a memory configuration that parsed, whatever its redis.on_error, a request on a route is
  -- forwarded or answered 429: the limiter neither panics nor fails but for its capacity, and a
  -- request that meets a full map is forwarded.
  pub serve-memory :
      (parse_url : Text → Option Url) (d : Decoded) (c : Config) (r : Request)
      (w : World (MemoryLimiter F)) (e : Entry)
      → parse parse_url d ≡ ok c
      → c.limiter.backend ≡ backend_memory
      → has_dot_segments r.path ≡ false
      → match (new_table c.routes) r.escaped_path ≡ some e
      → let asked = memory_backend (quota_key hosts e r) (effective_limit hosts e r) w.limiter in
        let reply =
          (serve memory_backend hosts (new_table c.routes) (gateway_on_error c.limiter) r w).1 in
        IsVerdict e reply
        × (((v : Decision) × (asked.1 ≡ ok v))
            ⊎ ((asked.1 ≡ err (at_capacity w.limiter.max_keys)) × (reply ≡ forward e [])))
  unfolding serve check route
  serve-memory parse_url d c r w e parsed memory plain found =
      let key = quota_key hosts e r in
      let limit = effective_limit hosts e r in
      let asked = memory_backend key limit w.limiter in
      let (listed, _, _, _) = match-longest c.routes r.escaped_path e found in
      let sound = parse-IsSound parse_url d c parsed in
      let valid =
        (All-In IsValidRoute c.routes sound.routes listed).limits (identity_for hosts r).value in
      rw (memory_fails_open c memory, plain, found)
        (
          respond-IsVerdict e asked.1,
          elim (allow-outcome fl key limit now w.limiter valid) [
            | inl (v, h) ↦ inl (v, h)
            | inr (full, _, _) ↦ inr (
              ap (λ q. q.1) full,
              ap (λ q. respond on_error_fail_open e q.1) full
                  ∙ full_map_forwards e (at_capacity w.limiter.max_keys),
            )
          ],
        )
