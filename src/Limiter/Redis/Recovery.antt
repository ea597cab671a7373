-- ===== src/Limiter/Redis/Recovery.antt =====
-- internal/limiter/redis.go: what becomes of a limiter once redis answers again.
use turnike.Common.{
  ℤ, pos, ◌<ℤ◌, ◌≤ℤ◌, ◌+ℤ◌, +ℤ_parts, -ℤ_parts, true, false, List, [], ◌∷◌, All, Text, Result, ok,
  ◌≡◌, ◌⊎◌, inl, inr, refl, arith,
}
use turnike.Config.{Limit}
use turnike.Config.Limits.{IsValidLimit}
use turnike.Limiter.{Time, Decision}
use turnike.Limiter.Float.{Float}
use turnike.Limiter.Breaker.{
  Breaker, success, closed, open_circuit, half_open, set_state, breaker_cooldown, admit,
  record_verdict,
}
use turnike.Limiter.Redis.{
  CallError, Arg, Script, RedisError, window_micros, RedisLimiter, conclude, finish, redis_key,
  script_args,
}
use turnike.Limiter.Redis.Replies.{Reads, decision_from_reply-Reads}
use turnike.Limiter.Redis.Degrade.{reply_to}
use turnike.Limiter.Redis.Failures.{allow-called}
use turnike.Limiter.Redis.Policy.{Call, answer}

-- The circuit is closed, or it has been open for a cooldown.
abbrev pub IsDue : Breaker → Time → Type 0
IsDue b now =
    (b.state ≡ closed) ⊎ ((b.state ≡ open_circuit) × (b.opened_at +ℤ breaker_cooldown ≤ℤ now))

admit-due :
    (b : Breaker) (now : Time)
    → IsDue b now
    → (b' : Breaker) × (admit now b ≡ (b', true))
      × ((end : Time) → (record_verdict success end b').state ≡ closed)
unfolding admit record_verdict
admit-due b now (inl s) = (b, ground arith, λ end. ground arith)
admit-due b now (inr (s, over)) = (
  set_state half_open b,
  ground (arith, +ℤ_parts b.opened_at breaker_cooldown, -ℤ_parts now b.opened_at),
  λ end. refl,
)

-- A limit that redis can be asked about.
abbrev pub IsAskable : Limit → Type 0
IsAskable l = IsValidLimit l × (pos 0 <ℤ window_micros l.window)

-- A decision of redis's own, by its reply.
abbrev pub IsOwn : Limit → Result CallError (List ℤ) → Result RedisError Decision → Type 0
IsOwn l reply r = (d : Decision) × (r ≡ ok d) × (d.degraded ≡ false) × Reads l reply d

module _ (fl : Float) (R : Type 0) (script : Script R) where
  open fl use {F}

  -- Whatever it is asked, redis replies with four numbers.
  abbrev pub IsUp : Type 0
  IsUp =
      (algorithm key : Text) (args : List Arg) (server : R)
      → (a b c d : ℤ) × ((script algorithm key args server).1 ≡ ok (a ∷ b ∷ c ∷ d ∷ []))

  -- Each of the calls, one after the other, gets the decision of redis's reply to it, as redis stands
  -- then, and leaves the circuit closed.
  abbrev pub AllOwn : RedisLimiter F R → List Call → Type 0
  AllOwn s [] = Unit
  AllOwn s (c ∷ cs) =
      IsOwn c.limit (reply_to fl R script c.key c.limit s) (answer fl R script s c).1
      × ((answer fl R script s c).0.breaker.state ≡ closed)
      × AllOwn (answer fl R script s c).0 cs

  answer-recovers :
      (s : RedisLimiter F R) (c : Call)
      → IsUp
      → IsAskable c.limit
      → IsDue s.breaker c.clock.admitted
      → IsOwn c.limit (reply_to fl R script c.key c.limit s) (answer fl R script s c).1
        × ((answer fl R script s c).0.breaker.state ≡ closed)
  unfolding finish conclude
  answer-recovers s c up (valid, enough) due =
      let (b, admitted, shut) = admit-due s.breaker c.clock.admitted due in
      let (x, y, z, w, replied) =
        up c.limit.algorithm (redis_key fl R script c.limit c.key)
          (script_args c.limit (window_micros c.limit.window)) s.server in
      rw (allow-called fl R script c.key c.limit c.clock s b valid enough admitted, replied)
        (decision_from_reply-Reads c.limit x y z w, shut c.clock.recorded)

  all_closed :
      (s : RedisLimiter F R) (cs : List Call)
      → IsUp
      → All (λ x. IsAskable x.limit) cs
      → s.breaker.state ≡ closed
      → AllOwn s cs
  all_closed s [] up hs shut = tt
  all_closed s (c ∷ cs) up (h, hs) shut =
      let (own, still) = answer-recovers s c up h (inl shut) in
      (own, still, all_closed (answer fl R script s c).0 cs up hs still)

  -- With valid limits of at least a microsecond: once redis replies to every call with four
  -- numbers, and with the circuit closed or its cooldown over at the first of them, that call and
  -- every later one, whatever went before, get an unmarked decision that reads redis's reply to
  -- that very call: it is admitted exactly if the first number is 1, and the limit, the
  -- remainder, the reset and the wait are redis's; and each of them leaves the circuit closed.
  pub results-recover :
      (s : RedisLimiter F R) (c : Call) (cs : List Call)
      → IsUp
      → All (λ x. IsAskable x.limit) (c ∷ cs)
      → IsDue s.breaker c.clock.admitted
      → AllOwn s (c ∷ cs)
  results-recover s c cs up (h, hs) due =
      let (own, closed_again) = answer-recovers s c up h due in
      (own, closed_again, all_closed (answer fl R script s c).0 cs up hs closed_again)
