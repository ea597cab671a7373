-- ===== src/Limiter/Redis.antt =====
-- internal/limiter/redis.go. The redis server and its client are a parameter: a script call takes
-- the server's state to a new one and a reply or an error. The three clock readings of a call are
-- arguments. Ping and Close, which only call the client, and the logging are left out.
pub mod Replies
pub mod Degrade
pub mod Failures
pub mod Policy
pub mod Recovery
pub mod Boot
use turnike.Common.{
  ℤ, pos, negsuc, leb_ℤ, eq_ℤ, ℕ, ◌/◌, ◌*◌, ◌+◌, ◌-◌, not, ◌||◌, Bool, true, false, Option, none,
  some, List, [], ◌∷◌, ◌++◌, Text, text_eq, codes, Result, ok, err, if◌then◌else◌, ◌+ℤ◌,
}
use turnike.Config.{
  Limit, Duration, algo_fixed_window, algo_token_bucket, algo_sliding_window, backend_redis,
  backend_memory, on_error_degrade,
}
use turnike.Limiter.{Time, Decision}
use turnike.Limiter.Float.{Float}
use turnike.Limiter.Breaker.{
  new_breaker, Breaker, Verdict, success, cancelled, failure, admit, record_verdict,
}
use turnike.Limiter.Memory
use turnike.Limiter.Memory.{new_memory_limiter, MemoryLimiter, AllowError}

-- A value of ARGV.
pub data Arg : Type 0 where
  int : ℤ → Arg
  nonce : Arg

-- Why a script call gives no reply: the caller hung up, or anything else.
pub data CallError : Type 0 where
  cancelled_call failed_call : CallError

-- A script call: the algorithm's script, KEYS[1] and ARGV.
abbrev pub Script : Type 0 → Type 0
Script R = Text → Text → List Arg → R → R × Result CallError (List ℤ)

-- Why Allow gives no decision; `memory` is the fallback's error.
pub data RedisError : Type 0 where
  no_script : Text → RedisError
  window_too_small : Duration → RedisError
  circuit_open : RedisError
  call_failed : CallError → RedisError
  bad_reply : List ℤ → RedisError
  memory : AllowError → RedisError

-- The clock as a call reads it: in admit, in record, and in the fallback.
pub record Clock : Type 0 where
  pub admitted : Time
  pub recorded : Time
  pub fallback : Time

-- int64(window / time.Microsecond), rounded towards zero.
unfoldable pub window_micros : Duration → ℤ
window_micros (pos n) = pos (n / 1000)
window_micros (negsuc n) =
    if eq_ℤ (pos ((n + 1) / 1000)) (pos 0) then pos 0 else negsuc ((n + 1) / 1000 - 1)

-- The scripts table: which quota a decision reports, and ARGV.
abbrev pub limit_of : Limit → ℤ
limit_of l = if text_eq l.algorithm algo_token_bucket then l.burst else l.rate

pub script_args : Limit → ℤ → List Arg
script_args l micros =
    if text_eq l.algorithm algo_fixed_window
    then int l.rate ∷ int micros ∷ []
    else (if text_eq l.algorithm algo_token_bucket
        then int l.burst ∷ int l.rate ∷ int micros ∷ []
        else int l.rate ∷ int micros ∷ nonce ∷ [])

abbrev pub has_script : Text → Bool
has_script a =
    text_eq a algo_fixed_window || (text_eq a algo_token_bucket || text_eq a algo_sliding_window)

-- Microseconds to nanoseconds.
unfoldable pub times_1000 : ℤ → ℤ
times_1000 (pos n) = pos (n * 1000)
times_1000 (negsuc n) = negsuc ((n + 1) * 1000 - 1)

-- The Unix epoch as an instant.
abbrev pub epoch : Time
epoch = pos 62135596800000000000

unfoldable pub decision_from_reply : List ℤ → ℤ → Result RedisError Decision
unfolding times_1000
decision_from_reply (allowed ∷ remaining ∷ reset_us ∷ retry_us ∷ []) limit = ok (record {
  allowed = eq_ℤ allowed (pos 1);
  limit = limit;
  remaining = remaining;
  reset = epoch +ℤ times_1000 reset_us;
  retry_after = times_1000 retry_us;
  degraded = false;
})
decision_from_reply vals limit = err (bad_reply vals)

abbrev verdict : Result CallError (List ℤ) → Verdict
verdict (ok vals) = success
verdict (err cancelled_call) = cancelled
verdict (err failed_call) = failure

-- `backend` is the value last given to SetActiveBackend.
pub record RedisLimiter (F R : Type 0) : Type 0 where
  pub server : R
  pub breaker : Breaker
  pub fallback : Option (MemoryLimiter F)
  pub backend : Text

abbrev pub Outcome : Type 0 → Type 0 → Type 0
Outcome F R = RedisLimiter F R × Result RedisError Decision

-- NewRedisLimiter up to the eager load of the scripts, which is Limiter/Redis/Boot: the fallback is
-- built for one policy only.
unfoldable pub new_redis_limiter : (fl : Float) (R : Type 0) → Text → R → RedisLimiter fl.F R
new_redis_limiter fl R on_error server = record {
  server = server;
  breaker = new_breaker;
  fallback = if text_eq on_error on_error_degrade then some (new_memory_limiter fl) else none;
  backend = backend_redis;
}

module _ (fl : Float) (R : Type 0) (script : Script R) where
  open fl use {F}

  -- The fallback's answer, marked as degraded.
  degraded : RedisLimiter F R → MemoryLimiter F × Result AllowError Decision → Outcome F R
  degraded s (m, ok d) =
      (record s { fallback = some m; backend = backend_memory }, ok (record d { degraded = true }))
  degraded s (m, err e) = (record s { fallback = some m }, err (memory e))

  -- An error that may be answered by the fallback.
  fall_back :
      RedisLimiter F R → Option (MemoryLimiter F) → Text → Limit → Time → RedisError → Outcome F R
  unfolding degraded
  fall_back s none key l now e = (s, err e)
  fall_back s (some m) key l now e = degraded s (Memory.allow fl key l now m)

  -- What the call came to; a cancelled one is not answered by the fallback.
  conclude : RedisLimiter F R → Text → Limit → Time → Result CallError (List ℤ) → Outcome F R
  unfolding fall_back decision_from_reply
  conclude s key l now (ok vals) =
      (record s { backend = backend_redis }, decision_from_reply vals (limit_of l))
  conclude s key l now (err cancelled_call) = (s, err (call_failed cancelled_call))
  conclude s key l now (err failed_call) =
      fall_back s s.fallback key l now (call_failed failed_call)

  abbrev pub redis_key : Limit → Text → Text
  redis_key l key = codes "turnike:" ++ l.algorithm ++ b':' ∷ key

  -- The verdict is recorded before anything else is done with the reply.
  pub finish :
      RedisLimiter F R
      → Text
      → Limit
      → Clock
      → Breaker
      → R × Result CallError (List ℤ)
      → Outcome F R
  unfolding conclude
  finish s key l clock b (server, reply) =
      conclude
        (record s { server = server; breaker = record_verdict (verdict reply) clock.recorded b })
        key l clock.fallback reply

  -- The call under the breaker's supervision.
  supervised : RedisLimiter F R → Text → Limit → Clock → Breaker × Bool → Outcome F R
  unfolding finish fall_back script_args
  supervised s key l clock (b, false) =
      fall_back (record s { breaker = b }) s.fallback key l clock.fallback circuit_open
  supervised s key l clock (b, true) =
      finish s key l clock b
        (script l.algorithm (redis_key l key) (script_args l (window_micros l.window)) s.server)

  unfoldable pub allow : Text → Limit → Clock → RedisLimiter F R → Outcome F R
  unfolding supervised window_micros
  allow key l clock s =
      if not (has_script l.algorithm)
      then (s, err (no_script l.algorithm))
      else (if leb_ℤ (window_micros l.window) (pos 0)
          then (s, err (window_too_small l.window))
          else supervised s key l clock (admit clock.admitted s.breaker))
