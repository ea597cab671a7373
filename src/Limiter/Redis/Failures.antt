-- ===== src/Limiter/Redis/Failures.antt =====
-- internal/limiter/redis.go: what a call of redis that fails, is cancelled or is not made comes to.
use turnike.Common.{
  ℤ, pos, ◌<ℤ◌, leb_ℤ, ◌+ℤ◌, +ℤ_parts, -ℤ_parts, true, false, Option, none, some, List, Text,
  text_eq_iff, Result, ok, err, ◌≡◌, ◌⊎◌, inl, inr, refl, ap, ◌∙◌, arith,
}
use turnike.Config.{Limit, algo_fixed_window, algo_token_bucket, algo_sliding_window}
use turnike.Config.Limits.{IsValidLimit}
use turnike.Limiter.{Time, Decision}
use turnike.Limiter.Float.{Float}
use turnike.Limiter.Breaker.{
  Breaker, failure, open_circuit, half_open, breaker_cooldown, admit, record_verdict,
}
use turnike.Limiter.Memory
use turnike.Limiter.Memory.{MemoryLimiter, AllowError, at_capacity}
use turnike.Limiter.Memory.Capacity.{allow-outcome}
use turnike.Limiter.Redis.{
  Script, CallError, failed_call, RedisError, circuit_open, call_failed, window_too_small, memory,
  Clock, window_micros, has_script, RedisLimiter, degraded, fall_back, conclude, finish, supervised,
  allow, redis_key, script_args,
}

known_script : (l : Limit) → IsValidLimit l → has_script l.algorithm ≡ true
known_script l v = ground (
  arith,
  v,
  text_eq_iff l.algorithm algo_fixed_window,
  text_eq_iff l.algorithm algo_token_bucket,
  text_eq_iff l.algorithm algo_sliding_window,
)

-- The circuit lets no call through: it is open and cooling down, or a probe is out.
abbrev pub IsShut : Breaker → Time → Type 0
IsShut b now =
    ((b.state ≡ open_circuit) × (now <ℤ b.opened_at +ℤ breaker_cooldown)) ⊎ (b.state ≡ half_open)

admit-shut : (b : Breaker) (now : Time) → IsShut b now → admit now b ≡ (b, false)
unfolding admit
admit-shut b now (inl (s, soon)) =
    ground (arith, +ℤ_parts b.opened_at breaker_cooldown, -ℤ_parts now b.opened_at)
admit-shut b now (inr s) = ground arith

small_micros : (w : ℤ) → pos 0 <ℤ w → w <ℤ pos 1000 → leb_ℤ (window_micros w) (pos 0) ≡ true
unfolding window_micros
small_micros w p h = ground arith

module _ (fl : Float) (R : Type 0) (script : Script R) where
  open fl use {F}

  allow-supervised :
      (key : Text) (l : Limit) (clock : Clock) (s : RedisLimiter F R)
      → IsValidLimit l
      → pos 0 <ℤ window_micros l.window
      → allow fl R script key l clock s
        ≡ supervised fl R script s key l clock (admit clock.admitted s.breaker)
  unfolding allow
  allow-supervised key l clock s v p = rw (known_script l v, gt_not_le (window_micros l.window) p)
    where
      gt_not_le : (a : ℤ) → pos 0 <ℤ a → leb_ℤ a (pos 0) ≡ false
      gt_not_le a h = ground arith

  fall_back-state :
      (s : RedisLimiter F R) (o : Option (MemoryLimiter F)) (key : Text) (l : Limit) (now : Time)
      (e : RedisError)
      → ((fall_back fl R script s o key l now e).0.server ≡ s.server)
        × ((fall_back fl R script s o key l now e).0.breaker ≡ s.breaker)
  unfolding fall_back degraded
  fall_back-state s none key l now e = (refl, refl)
  fall_back-state s (some m) key l now e = ground arith

  fall_back-ok :
      (s : RedisLimiter F R) (key : Text) (l : Limit) (now : Time) (e : RedisError)
      (m : MemoryLimiter F) (d : Decision)
      → (Memory.allow fl key l now m).1 ≡ ok d
      → (fall_back fl R script s (some m) key l now e).1 ≡ ok (record d { degraded = true })
  unfolding fall_back degraded
  fall_back-ok s key l now e m d h = ground arith

  -- Under a valid limit of at least a microsecond, while the circuit is shut: redis's state and the
  -- breaker stay as they are, without a fallback the answer is the circuit's error, and a decision of
  -- the fallback is the answer, marked as degraded.
  allow-shut :
      (key : Text) (l : Limit) (clock : Clock) (s : RedisLimiter F R)
      → IsValidLimit l
      → pos 0 <ℤ window_micros l.window
      → IsShut s.breaker clock.admitted
      → ((allow fl R script key l clock s).0.server ≡ s.server)
        × ((allow fl R script key l clock s).0.breaker ≡ s.breaker)
        × (s.fallback ≡ none → (allow fl R script key l clock s).1 ≡ err circuit_open)
        × ((m : MemoryLimiter F) (d : Decision)
            → s.fallback ≡ some m
            → (Memory.allow fl key l clock.fallback m).1 ≡ ok d
            → (allow fl R script key l clock s).1 ≡ ok (record d { degraded = true }))
  unfolding fall_back
  allow-shut key l clock s v p shut =
      let answer = fall_back fl R script s s.fallback key l clock.fallback circuit_open in
      let same : allow fl R script key l clock s ≡ answer =
        allow-supervised key l clock s v p
        ∙ (ap (supervised fl R script s key l clock) (admit-shut s.breaker clock.admitted shut)
            ∙ (unfold supervised in refl)) in
      let (server, breaker) = fall_back-state s s.fallback key l clock.fallback circuit_open in
      (
        ap (λ o. o.0.server) same ∙ server,
        ap (λ o. o.0.breaker) same ∙ breaker,
        λ e. ap (λ o. o.1) same ∙ rw (e, fall_back),
        λ m d e h.
            ap (λ o. o.1) same ∙ rw e (fall_back-ok s key l clock.fallback circuit_open m d h),
      )

  -- A valid limit whose window is shorter than a microsecond gets no decision in any state: neither
  -- redis nor the fallback is asked, and nothing changes.
  allow-small_window :
      (key : Text) (l : Limit) (clock : Clock) (s : RedisLimiter F R)
      → IsValidLimit l
      → l.window <ℤ pos 1000
      → allow fl R script key l clock s ≡ (s, err (window_too_small l.window))
  unfolding allow
  allow-small_window key l clock s v h = rw (known_script l v, small_micros l.window v.window h)

  -- The circuit lets a call through, and the client makes it.
  abbrev pub called : Text → Limit → R → R × Result CallError (List ℤ)
  called key l server =
      script l.algorithm (redis_key fl R script l key) (script_args l (window_micros l.window))
        server

  pub allow-called :
      (key : Text) (l : Limit) (clock : Clock) (s : RedisLimiter F R) (b : Breaker)
      → IsValidLimit l
      → pos 0 <ℤ window_micros l.window
      → admit clock.admitted s.breaker ≡ (b, true)
      → allow fl R script key l clock s ≡ finish fl R script s key l clock b (called key l s.server)
  allow-called key l clock s b v p e =
      allow-supervised key l clock s v p
      ∙ (ap (supervised fl R script s key l clock) e ∙ (unfold supervised in refl))

  -- Under a valid limit of at least a microsecond and with a fallback, where the circuit lets a call
  -- through and the call fails, the fallback's decision is the answer,
  -- marked as degraded, unless the fallback is at capacity: then its error is passed on.
  allow-degrades :
      (key : Text) (l : Limit) (clock : Clock) (s : RedisLimiter F R) (b : Breaker) (server : R)
      (m : MemoryLimiter F)
      → IsValidLimit l
      → pos 0 <ℤ window_micros l.window
      → s.fallback ≡ some m
      → admit clock.admitted s.breaker ≡ (b, true)
      → called key l s.server ≡ (server, err failed_call)
      → ((d : Decision) × ((Memory.allow fl key l clock.fallback m).1 ≡ ok d)
          × ((allow fl R script key l clock s).1 ≡ ok (record d { degraded = true })))
        ⊎ ((allow fl R script key l clock s).1 ≡ err (memory (at_capacity m.max_keys)))
  unfolding finish conclude fall_back degraded
  allow-degrades key l clock s b server m v p f e c =
      let s' = record s { server = server; breaker = record_verdict failure clock.recorded b } in
      let answered : (allow fl R script key l clock s).1
          ≡ (fall_back fl R script s' s.fallback key l clock.fallback (call_failed failed_call)).1 =
        ap (λ o. o.1)
          (allow-called key l clock s b v p e ∙ ap (finish fl R script s key l clock b) c) in
      let asked =
        answered
        ∙ ap (λ o. (fall_back fl R script s' o key l clock.fallback (call_failed failed_call)).1)
            f in
      elim (allow-outcome fl key l clock.fallback m v) [
        | inl (d, h) ↦
            inl (d, h, asked ∙ fall_back-ok s' key l clock.fallback (call_failed failed_call) m d h)
        | inr (full, _, _) ↦ inr (asked ∙ ap (λ r. (degraded fl R script s' r).1) full)
      ]
