-- ===== src/Limiter/Redis/Policy.antt =====
-- internal/limiter/redis.go: what the failure policy makes of every call of a limiter's life.
use turnike.Common.{
  ℤ, pos, leb_ℤ, Bool, true, false, Option, none, some, List, [], ◌∷◌, All, Text, text_eq_iff,
  Result, ok, err, ◌≡◌, ◌≢◌, ◌⊎◌, inl, inr, refl, arith, Bool-cases,
}
use turnike.Config.{Limit, backend_redis, on_error_degrade}
use turnike.Limiter.{Time, Decision}
use turnike.Limiter.Float.{Float}
use turnike.Limiter.Breaker.{Breaker, admit, record_verdict}
use turnike.Limiter.Memory
use turnike.Limiter.Memory.{MemoryLimiter, AllowError}
use turnike.Limiter.Redis.{
  Script, CallError, cancelled_call, failed_call, RedisError, no_script, window_too_small,
  circuit_open, call_failed, Clock, window_micros, has_script, decision_from_reply, limit_of,
  RedisLimiter, Outcome, degraded, fall_back, conclude, finish, verdict, script_args, redis_key,
  supervised, allow, new_redis_limiter,
}
use turnike.Limiter.Redis.Degrade.{reply_to, Marked, allow-Marked}

pub record Call : Type 0 where
  pub key : Text
  pub limit : Limit
  pub clock : Clock

module _ (fl : Float) (R : Type 0) (script : Script R) where
  open fl use {F}

  abbrev pub answer : RedisLimiter F R → Call → Outcome F R
  answer s c = allow fl R script c.key c.limit c.clock s

  -- What the calls of a limiter are answered, one after the other.
  unfoldable pub results : RedisLimiter F R → List Call → List (Result RedisError Decision)
  results s [] = []
  results s (c ∷ cs) = let rest = results (answer s c).0 cs in (answer s c).1 ∷ rest

  -- What holds of the four ways in which a call ends holds of the call.
  allow-ends :
      (P : Outcome F R → Type 0) (s : RedisLimiter F R) (c : Call)
      → ((e : RedisError) → e ≢ circuit_open → e ≢ call_failed failed_call → P (s, err e))
      → ((b : Breaker)
          → P (
              fall_back fl R script
                (record s { breaker = b })
                s.fallback
                c.key
                c.limit
                c.clock.fallback
                circuit_open))
      → ((b : Breaker) (server : R) (reply : Result CallError (List ℤ))
          → P (
              conclude fl R script
                (record s { server = server; breaker = b })
                c.key
                c.limit
                c.clock.fallback
                reply))
      → P (answer s c)
  unfolding allow
  allow-ends P s c refused shut called = elim (Bool-cases (has_script c.limit.algorithm)) [
    | inr unknown ↦ rw unknown (refused (no_script c.limit.algorithm) (λ e. cc) (λ e. cc))
    | inl known ↦ elim (Bool-cases (leb_ℤ (window_micros c.limit.window) (pos 0))) [
      | inl small ↦
          rw (known, small) (refused (window_too_small c.limit.window) (λ e. cc) (λ e. cc))
      | inr enough ↦ rw (known, enough) (passed (admit c.clock.admitted s.breaker))
    ]
  ]
    where
      ended :
          (b : Breaker) (r : R × Result CallError (List ℤ))
          → P (finish fl R script s c.key c.limit c.clock b r)
      ended b (server, reply) =
          unfold finish in called (record_verdict (verdict reply) c.clock.recorded b) server reply

      passed : (a : Breaker × Bool) → P (supervised fl R script s c.key c.limit c.clock a)
      passed (b, false) = unfold supervised in shut b
      passed (b, true) =
          unfold supervised in
          ended b (
            script c.limit.algorithm (redis_key fl R script c.limit c.key)
              (script_args c.limit (window_micros c.limit.window)) s.server)

  -- No fallback, and redis as the active backend.
  abbrev IsStrict : RedisLimiter F R → Type 0
  IsStrict s = (s.fallback ≡ none) × (s.backend ≡ backend_redis)

  answer-IsStrict : (s : RedisLimiter F R) (c : Call) → IsStrict s → IsStrict (answer s c).0
  unfolding fall_back conclude
  answer-IsStrict s c (f, b) =
      allow-ends (λ o. IsStrict o.0) s c (λ e _ _. (f, b)) (λ br. rw f (refl, b)) ended
    where
      ended :
          (br : Breaker) (server : R) (reply : Result CallError (List ℤ))
          → IsStrict
              (conclude fl R script
                (record s { server = server; breaker = br })
                c.key
                c.limit
                c.clock.fallback
                reply).0
      ended br server (ok vals) = (f, refl)
      ended br server (err cancelled_call) = (f, b)
      ended br server (err failed_call) = rw f (refl, b)

  -- A failure that the fallback is there for.
  abbrev pub IsOutage : Result RedisError Decision → Type 0
  IsOutage r = (r ≡ err circuit_open) ⊎ (r ≡ err (call_failed failed_call))

  abbrev IsCovered : Outcome F R → Type 0
  IsCovered o = (o.0.fallback ≢ none) × (¬ IsOutage o.1)

  degraded-IsCovered :
      (s : RedisLimiter F R) (r : MemoryLimiter F × Result AllowError Decision)
      → IsCovered (degraded fl R script s r)
  unfolding degraded
  degraded-IsCovered s (m, ok d) = ground arith
  degraded-IsCovered s (m, err e) = ground arith

  fall_back-IsCovered :
      (s : RedisLimiter F R) (o : Option (MemoryLimiter F)) (key : Text) (l : Limit) (now : Time)
      (e : RedisError)
      → o ≢ none
      → IsCovered (fall_back fl R script s o key l now e)
  unfolding fall_back
  fall_back-IsCovered s none key l now e h = absurd (h refl)
  fall_back-IsCovered s (some m) key l now e h = degraded-IsCovered s (Memory.allow fl key l now m)

  reply-IsOutage : (vals : List ℤ) (limit : ℤ) → ¬ IsOutage (decision_from_reply vals limit)
  unfolding decision_from_reply
  reply-IsOutage [] limit = ground arith
  reply-IsOutage (a ∷ []) limit = ground arith
  reply-IsOutage (a ∷ b ∷ []) limit = ground arith
  reply-IsOutage (a ∷ b ∷ c ∷ []) limit = ground arith
  reply-IsOutage (a ∷ b ∷ c ∷ d ∷ []) limit = ground arith
  reply-IsOutage (a ∷ b ∷ c ∷ d ∷ e ∷ vals) limit = ground arith

  answer-IsCovered : (s : RedisLimiter F R) (c : Call) → s.fallback ≢ none → IsCovered (answer s c)
  unfolding conclude
  answer-IsCovered s c f =
      allow-ends IsCovered s c (λ e n k. (f, ground arith))
        (λ br.
          fall_back-IsCovered (record s { breaker = br }) s.fallback c.key c.limit c.clock.fallback
            circuit_open f)
        ended
    where
      ended :
          (br : Breaker) (server : R) (reply : Result CallError (List ℤ))
          → IsCovered (
              conclude fl R script
                (record s { server = server; breaker = br })
                c.key
                c.limit
                c.clock.fallback
                reply)
      ended br server (ok vals) = (f, reply-IsOutage vals (limit_of c.limit))
      ended br server (err cancelled_call) = (f, ground arith)
      ended br server (err failed_call) =
          fall_back-IsCovered (record s { server = server; breaker = br }) s.fallback c.key c.limit
            c.clock.fallback (call_failed failed_call) f

  results_covered :
      (s : RedisLimiter F R) (cs : List Call)
      → s.fallback ≢ none
      → All (λ r. ¬ IsOutage r) (results s cs)
  unfolding results
  results_covered s [] f = tt
  results_covered s (c ∷ cs) f =
      let (kept, covered) = answer-IsCovered s c f in
      (covered, results_covered (answer s c).0 cs kept)

  -- A decision, if it is one, that is not marked as degraded.
  abbrev pub IsUndegraded : Result RedisError Decision → Type 0
  IsUndegraded (ok d) = d.degraded ≡ false
  IsUndegraded (err e) = Unit

  Marked-IsUndegraded :
      (before : Option (MemoryLimiter F)) (reply : Result CallError (List ℤ)) (key : Text)
      (l : Limit) (now : Time) (s : RedisLimiter F R) (r : Result RedisError Decision)
      → Marked fl R script before reply key l now (s, r)
      → s.backend ≡ backend_redis
      → IsUndegraded r
  Marked-IsUndegraded before reply key l now s (ok d) (inl (_, m, _)) b = absurd (cc)
  Marked-IsUndegraded before reply key l now s (ok d) (inr (u, _, _, _)) b = u
  Marked-IsUndegraded before reply key l now s (err e) h b = tt

  results-IsUndegraded :
      (s : RedisLimiter F R) (cs : List Call) → IsStrict s → All IsUndegraded (results s cs)
  unfolding results
  results-IsUndegraded s [] h = tt
  results-IsUndegraded s (c ∷ cs) h =
      let kept = answer-IsStrict s c h in
      (
        Marked-IsUndegraded s.fallback (reply_to fl R script c.key c.limit s) c.key c.limit
            c.clock.fallback (answer s c).0 (answer s c).1
            (allow-Marked fl R script c.key c.limit c.clock s) kept.1,
        results-IsUndegraded (answer s c).0 cs kept,
      )

  -- Over the whole life of a new limiter, whatever redis answers: under degrade no call ends in the
  -- circuit's error or in that of a failed call of redis; under any other policy no decision is
  -- marked as degraded.
  pub results-policy :
      (on_error : Text) (server : R) (cs : List Call)
      → (on_error ≡ on_error_degrade
          → All (λ r. ¬ IsOutage r) (results (new_redis_limiter fl R on_error server) cs))
        × (on_error ≢ on_error_degrade
            → All IsUndegraded (results (new_redis_limiter fl R on_error server) cs))
  unfolding new_redis_limiter
  results-policy on_error server cs = (
    λ e.
        results_covered (new_redis_limiter fl R on_error server) cs
          (rw ((text_eq_iff on_error on_error_degrade).1 e) (λ k. cc)),
    λ ne.
        results-IsUndegraded (new_redis_limiter fl R on_error server) cs
          (ground (arith, ne, text_eq_iff on_error on_error_degrade), refl),
  )
