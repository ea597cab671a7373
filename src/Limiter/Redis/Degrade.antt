-- ===== src/Limiter/Redis/Degrade.antt =====
-- internal/limiter/redis.go: who answered, the degraded mark, the active backend and the fallback.
use turnike.Common.{
  ℤ, pos, leb_ℤ, Bool, true, false, Option, none, some, List, [], ◌∷◌, Text, Result, ok, err, ◌≡◌,
  ◌⊎◌, inl, inr, refl, ap, sym, Bool-cases,
}
use turnike.Config.{Limit, backend_redis, backend_memory}
use turnike.Limiter.{Time, Decision}
use turnike.Limiter.Float.{Float}
use turnike.Limiter.Breaker.{Breaker, admit, record_verdict}
use turnike.Limiter.Memory
use turnike.Limiter.Memory.{MemoryLimiter, AllowError}
use turnike.Limiter.Redis.Replies.{Reads, decision_from_reply-Reads}
use turnike.Limiter.Redis.{
  Script, CallError, cancelled_call, failed_call, RedisError, circuit_open, call_failed, Clock,
  window_micros, has_script, decision_from_reply, limit_of, RedisLimiter, Outcome, degraded,
  fall_back, conclude, finish, verdict, script_args, redis_key, supervised, allow,
}

module _ (fl : Float) (R : Type 0) (script : Script R) where
  open fl use {F}

  -- The script's reply to a call.
  abbrev pub reply_to : Text → Limit → RedisLimiter F R → Result CallError (List ℤ)
  reply_to key l s =
      (script l.algorithm (redis_key fl R script l key) (script_args l (window_micros l.window))
        s.server).1

  -- Who decided, by the fallback before the call, the reply of redis, and what the memory backend
  -- makes of the call: the fallback did, whose decision is only marked and which stands as the
  -- memory backend leaves it, and memory is the active backend; or redis did, by its reply, and
  -- is the active one.
  abbrev pub Marked :
      Option (MemoryLimiter F)
      → Result CallError (List ℤ)
      → (key : Text) → Limit
      → Time
      → Outcome F R
      → Type 0
  Marked before reply key l now (s, ok d) =
      (((d.degraded ≡ true)
          × (s.backend ≡ backend_memory)
          × ((m : MemoryLimiter F) × (answered : Decision) × (before ≡ some m)
              × ((Memory.allow fl key l now m).1 ≡ ok answered)
              × (d ≡ record answered { degraded = true })
              × (s.fallback ≡ some (Memory.allow fl key l now m).0)))
        ⊎ ((d.degraded ≡ false)
            × (s.backend ≡ backend_redis)
            × (s.fallback ≡ before)
            × Reads l reply d))
  Marked before reply key l now (s, err e) = Unit

  module _ (before : Option (MemoryLimiter F)) (key : Text) (l : Limit) (now : Time) where
    reply-Marked :
        (s : RedisLimiter F R) (vals : List ℤ)
        → s.backend ≡ backend_redis
        → s.fallback ≡ before
        → Marked before (ok vals) key l now (s, decision_from_reply vals (limit_of l))
    reply-Marked s [] h k = unfold decision_from_reply in tt
    reply-Marked s (a ∷ []) h k = unfold decision_from_reply in tt
    reply-Marked s (a ∷ b ∷ []) h k = unfold decision_from_reply in tt
    reply-Marked s (a ∷ b ∷ c ∷ []) h k = unfold decision_from_reply in tt
    reply-Marked s (a ∷ b ∷ c ∷ d ∷ []) h k =
        let (own, e, plain, reads) = decision_from_reply-Reads l a b c d in
        rw e (inr (plain, h, k, reads))
    reply-Marked s (a ∷ b ∷ c ∷ d ∷ e ∷ vals) h k = unfold decision_from_reply in tt

    degraded-Marked :
        (s : RedisLimiter F R) (m : MemoryLimiter F) (reply : Result CallError (List ℤ))
        (r : MemoryLimiter F × Result AllowError Decision)
        → before ≡ some m
        → Memory.allow fl key l now m ≡ r
        → Marked before reply key l now (degraded fl R script s r)
    unfolding degraded
    degraded-Marked s m reply (m', ok d) h e =
        inl (refl, refl, (m, d, h, ap (λ r. r.1) e, refl, ap (λ r. some r.0) (sym e)))
    degraded-Marked s m reply (m', err x) h e = tt

    fall_back-Marked :
        (s : RedisLimiter F R) (o : Option (MemoryLimiter F)) (reply : Result CallError (List ℤ))
        (e : RedisError)
        → before ≡ o
        → Marked before reply key l now (fall_back fl R script s o key l now e)
    unfolding fall_back
    fall_back-Marked s none reply e h = tt
    fall_back-Marked s (some m) reply e h =
        degraded-Marked s m reply (Memory.allow fl key l now m) h refl

    conclude-Marked :
        (s : RedisLimiter F R) (r : Result CallError (List ℤ))
        → s.fallback ≡ before
        → Marked before r key l now (conclude fl R script s key l now r)
    unfolding conclude
    conclude-Marked s (ok vals) h = reply-Marked (record s { backend = backend_redis }) vals refl h
    conclude-Marked s (err cancelled_call) h = tt
    conclude-Marked s (err failed_call) h =
        fall_back-Marked s s.fallback (err failed_call) (call_failed failed_call) (sym h)

  finish-Marked :
      (s : RedisLimiter F R) (key : Text) (l : Limit) (clock : Clock) (b : Breaker)
      (r : R × Result CallError (List ℤ))
      → Marked s.fallback r.1 key l clock.fallback (finish fl R script s key l clock b r)
  unfolding finish
  finish-Marked s key l clock b (server, reply) =
      conclude-Marked s.fallback key l clock.fallback
        (record s { server = server; breaker = record_verdict (verdict reply) clock.recorded b })
        reply refl

  supervised-Marked :
      (s : RedisLimiter F R) (key : Text) (l : Limit) (clock : Clock) (a : Breaker × Bool)
      → Marked s.fallback
          (reply_to key l s)
          key
          l
          clock.fallback
          (supervised fl R script s key l clock a)
  unfolding supervised
  supervised-Marked s key l clock (b, false) =
      fall_back-Marked s.fallback key l clock.fallback (record s { breaker = b }) s.fallback
        (reply_to key l s) circuit_open refl
  supervised-Marked s key l clock (b, true) = finish-Marked s key l clock b (
      script l.algorithm (redis_key fl R script l key) (script_args l (window_micros l.window))
        s.server)

  -- A decision of Allow is one of two. Either it is the decision that the memory backend comes to
  -- for this call on the fallback, with the degraded mark and nothing else changed; the fallback
  -- is left as that backend leaves it, and memory is the active backend. Or it is not marked and
  -- reads the script's reply to this call, as to admission, limit, remainder, reset and wait; the
  -- fallback is untouched, and redis is the active backend.
  pub allow-Marked :
      (key : Text) (l : Limit) (clock : Clock) (s : RedisLimiter F R)
      → Marked s.fallback (reply_to key l s) key l clock.fallback (allow fl R script key l clock s)
  unfolding allow
  allow-Marked key l clock s = elim (Bool-cases (has_script l.algorithm)) [
    | inr unknown ↦ rw unknown tt
    | inl known ↦ elim (Bool-cases (leb_ℤ (window_micros l.window) (pos 0))) [
      | inl small ↦ rw known (rw small tt)
      | inr enough ↦
          rw known (rw enough (supervised-Marked s key l clock (admit clock.admitted s.breaker)))
    ]
  ]
