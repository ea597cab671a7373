-- ===== src/Proxy/Gateway.antt =====
-- internal/proxy/gateway.go: Gateway.ServeHTTP and the answers it writes. The limiter is any
-- implementation of the Limiter interface; the reverse proxy is an outcome, `forward`.
pub mod Outcomes
pub mod Answers
pub mod System
pub mod Quota
use turnike.Common.{
  ℤ, pos, negsuc, sub_ℕ, ◌*◌, ◌^◌, zero, leb, ltb, ℕ, suc, ◌+◌, ◌/◌, ◌-◌, Bool, true, false, Option,
  none, some, List, [], ◌∷◌, ◌++◌, Text, text_eq, codes, Result, ok, err, if◌then◌else◌,
}
use turnike.Config.{Limit, Route, Duration, on_error_fail_closed}
use turnike.Config.Limits.{limit_for}
use turnike.Metrics.{Label, allow, deny, degrade_allow, degrade_deny, degrade}
use turnike.Limiter.{Time, Decision}
use turnike.Limiter.Breaker.{breaker_cooldown}
use turnike.Proxy.Identity.{Hosts, Identity, Request, identity_for, render}
use turnike.Proxy.Paths.{has_dot_segments}
use turnike.Proxy.Table.{Entry, match}

-- A response header with the number that it carries.
pub data Header : Type 0 where
  rate_limit_limit rate_limit_remaining rate_limit_reset retry_after : ℤ → Header

-- What a request comes to: an answer of the gateway's own, or the entry's reverse proxy with the
-- headers that were set before.
pub data Reply : Type 0 where
  answer : (status : ℕ) → List Header → Reply
  forward : Entry → List Header → Reply

-- The greatest power of two up to 2 ^ k that is at most n, or 0 when n is 0.
unfoldable pub leading_power : ℕ → ℕ → ℕ
leading_power zero n = if leb 1 n then 1 else 0
leading_power (suc k) n =
    let below = leading_power k n in if leb (2 ^ suc k) n then 2 ^ suc k else below

-- math.Ceil of `sec + nsec / 1e9`, a float64: the sum is rounded to the nearest, ties to even, so that
-- a fraction up to half the spacing of the float64s at `sec` is lost. The seconds of an int64 are below
-- 2 ^ 34.
abbrev pub ceil_sum : (sec : ℕ) → (nsec : ℕ) → ℕ
ceil_sum sec nsec = if leb (nsec * 2 ^ 53) (1000000000 * leading_power 34 sec) then sec else sec + 1

-- math.Ceil(d.Seconds()) of a duration that is not negative.
unfoldable pub ceil_seconds : ℕ → ℕ
ceil_seconds n = ceil_sum (n / 1000000000) (n - n / 1000000000 * 1000000000)

-- The ceiling, or 1 if that is less, as it is for every negative duration.
abbrev pub retry_seconds : Duration → ℕ
retry_seconds (pos n) = if ltb (ceil_seconds n) 1 then 1 else ceil_seconds n
retry_seconds (negsuc n) = 1

-- Seconds from the zero time to the Unix epoch.
abbrev pub unix_epoch : ℕ
unix_epoch = 62135596800

-- time.Time.Unix: whole seconds since the epoch, rounded down.
abbrev pub unix : Time → ℤ
unix (pos n) = sub_ℕ (n / 1000000000) unix_epoch
unix (negsuc n) = negsuc (n / 1000000000 + unix_epoch)

unfoldable pub rate_limit_headers : Decision → List Header
rate_limit_headers d =
    rate_limit_limit d.limit
    ∷ rate_limit_remaining d.remaining
    ∷ rate_limit_reset (unix d.reset)
    ∷ []

limiter_unavailable : Reply
limiter_unavailable = answer 503 (retry_after (pos (retry_seconds breaker_cooldown)) ∷ [])

too_many_requests : Decision → Reply
unfolding rate_limit_headers
too_many_requests d =
    answer 429 (rate_limit_headers d ++ retry_after (pos (retry_seconds d.retry_after)) ∷ [])

unfoldable pub decision_label {κ} : {E : Type κ} → Result E Decision → Label
decision_label (err e) = degrade
decision_label (ok d) =
    if d.degraded
    then (if d.allowed then degrade_allow else degrade_deny)
    else (if d.allowed then allow else deny)

-- The switch on the limiter's outcome.
unfoldable pub respond {κ} : {E : Type κ} → Text → Entry → Result E Decision → Reply
unfolding limiter_unavailable too_many_requests rate_limit_headers
respond on_error e (err error) =
    if text_eq on_error on_error_fail_closed then limiter_unavailable else forward e []
respond on_error e (ok d) =
    if d.allowed then forward e (rate_limit_headers d) else too_many_requests d

-- The limiter's state with the increments of requests_total, newest first, and the holder through
-- which the middleware learns the matched route's prefix.
pub record World {ℓ} (S : Type ℓ) : Type ℓ where
  pub limiter : S
  pub requests_total : List (Text × Label)
  pub route_prefix : Text

-- The key that a request's quota is counted under.
abbrev pub quota_key : Hosts → Entry → Request → Text
quota_key hosts e r = e.prefix ++ codes ":" ++ render hosts (identity_for hosts r)

abbrev pub effective_limit : Hosts → Entry → Request → Limit
effective_limit hosts e r = limit_for e.route (identity_for hosts r).value

module _ {ℓ κ} {S : Type ℓ} {E : Type κ} (limiter : Text → Limit → S → S × Result E Decision)
    (hosts : Hosts) where
  -- A request that matched: the limiter is asked once, the outcome counted, then answered.
  unfoldable pub check : Text → Request → World S → Entry → World S × Reply
  unfolding respond decision_label
  check on_error r w e =
      let (s, outcome) = limiter (quota_key hosts e r) (effective_limit hosts e r) w.limiter in
      (
        record {
          limiter = s;
          requests_total = (e.route.prefix, decision_label outcome) ∷ w.requests_total;
          route_prefix = e.route.prefix;
        },
        respond on_error e outcome,
      )

  unfoldable pub route : Text → Request → World S → Option Entry → World S × Reply
  unfolding check
  route on_error r w none = (w, answer 404 [])
  route on_error r w (some e) = check on_error r w e

  unfoldable pub serve : List Entry → Text → Request → World S → World S × Reply
  unfolding route
  serve table on_error r w =
      if has_dot_segments r.path
      then (w, answer 404 [])
      else route on_error r w (match table r.escaped_path)
