-- ===== src/Proxy/Gateway/Answers.antt =====
-- internal/proxy/gateway.go: the numbers in the gateway's own answers.
use turnike.Common.{
  pos, negsuc, ◌^◌, ◌<◌, ◌≤ℤ◌, ◌<ℤ◌, ℕ, zero, suc, ◌/◌, ◌+◌, ◌*◌, ◌-◌, ◌≤◌, false, [], ◌∷◌, ◌++◌,
  Text, text_eq_iff, ok, err, ◌≡◌, ◌⊎◌, inl, refl, arith,
}
use turnike.Config.{on_error_fail_closed}
use turnike.Limiter.{Decision}
use turnike.Limiter.Breaker.{breaker_cooldown}
use turnike.Proxy.Table.{Entry}
use turnike.Proxy.Gateway.{
  retry_after, answer, respond, rate_limit_headers, too_many_requests, limiter_unavailable,
  leading_power, ceil_seconds, retry_seconds, Duration,
}

-- Whole seconds that cover a wait, and no more of them than it takes.
pub record Rounds (wait : Duration) (secs : ℕ) : Type 0 where
  pub positive : 1 ≤ secs
  pub enough : wait ≤ℤ pos (secs * 1000000000)
  pub tight : (secs ≡ 1) ⊎ (pos ((secs - 1) * 1000000000) <ℤ wait)

leading_power-le : (k n : ℕ) → leading_power k n ≤ n
unfolding leading_power
leading_power-le zero n = ground arith
leading_power-le (suc k) n = ground (arith, leading_power-le k n)

-- Below 2 ^ 53 nanoseconds no nanosecond is lost.
ceil_seconds-exact : (n : ℕ) → n < 2 ^ 53 → ceil_seconds n ≡ (n + 999999999) / 1000000000
unfolding ceil_seconds
ceil_seconds-exact n h = ground (arith, leading_power-le 34 (n / 1000000000))

rounded : (d : Duration) → d <ℤ pos (2 ^ 53) → Rounds d (retry_seconds d)
rounded (pos zero) h =
    rw (ceil_seconds-exact 0 (omega arith))
      (record { positive = omega arith; enough = omega arith; tight = inl refl })
rounded (pos (suc n)) h =
    rw (ceil_seconds-exact (suc n) (omega arith))
      (record { positive = ground arith; enough = ground arith; tight = ground arith })
rounded (negsuc n) h = record { positive = omega arith; enough = omega arith; tight = inl refl }

-- A denied request whose wait is below 2 ^ 53 nanoseconds, some 104 days, is answered 429 with the
-- quota's headers and a Retry-After of at least a second that covers the real wait, and is one
-- second or exceeds the wait by less than one.
pub respond-denied {κ} :
    (E : Type κ) (on_error : Text) (e : Entry) (d : Decision)
    → d.allowed ≡ false
    → d.retry_after <ℤ pos (2 ^ 53)
    → (secs : ℕ) × (respond {E = E} on_error e (ok d)
        ≡ answer 429 (rate_limit_headers d ++ retry_after (pos secs) ∷ []))
      × Rounds d.retry_after secs
unfolding respond too_many_requests
respond-denied E on_error e d h short =
    (retry_seconds d.retry_after, rw h, rounded d.retry_after short)

-- Without a decision fail_closed answers 503 with no quota headers and a Retry-After no shorter than
-- the breaker's cooldown.
pub respond-unavailable {κ} :
    {E : Type κ} (e : Entry) (x : E)
    → (secs : ℕ) × (respond on_error_fail_closed e (err x)
        ≡ answer 503 (retry_after (pos secs) ∷ []))
      × Rounds breaker_cooldown secs
unfolding respond limiter_unavailable
respond-unavailable e x = (
  retry_seconds breaker_cooldown,
  rw ((text_eq_iff on_error_fail_closed on_error_fail_closed).1 refl),
  rounded breaker_cooldown (omega arith),
)
