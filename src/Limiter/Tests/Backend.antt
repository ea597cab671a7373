-- ===== src/Limiter/Tests/Backend.antt =====
-- The redis backend at concrete input: the server counts its calls.
use turnike.Common.{
  List, All, ◌≢◌, pos, ◌+ℤ◌, ◌-ℤ◌, ◌<ℤ◌, ℕ, suc, Bool, true, false, some, [], ◌∷◌, Text, text_eq,
  codes, Result, ok, err, ◌≡◌, refl, inl, inr, arith,
}
use turnike.Config.{on_error_degrade, Limit, backend_redis}
use turnike.Config.Limits.{IsValidLimit}
use turnike.Limiter.{Decision}
use turnike.Limiter.Breaker.{open_circuit, new_breaker, admit, record_verdict}
use turnike.Limiter.Memory.{new_memory_limiter}
use turnike.Limiter.Redis.{
  new_redis_limiter, Script, CallError, failed_call, RedisError, Clock, RedisLimiter, allow,
  window_micros, decision_from_reply,
}
use turnike.Limiter.Redis.Degrade.{reply_to, Marked, allow-Marked}
use turnike.Limiter.Redis.Failures.{IsShut}
use turnike.Limiter.Redis.Policy.{Call, results, IsOutage, IsUndegraded, results-policy}
use turnike.Limiter.Redis.Recovery.{IsDue, AllOwn, results-recover}
use turnike.Limiter.Tests.FixedPoint.{fixed_point}
use turnike.Limiter.Tests.Windows.{two_in_ten}

-- Two requests in ten microseconds.
abbrev two_in_ten_micros : Limit
two_in_ten_micros = record two_in_ten { window = pos 10000 }

two_in_ten_micros-IsValidLimit : IsValidLimit two_in_ten_micros
two_in_ten_micros-IsValidLimit = record {
  rate = omega arith;
  window = omega arith;
  algorithm = inr (inl refl, refl);
}

-- The server counts the calls that reach it.
abbrev fails : CallError → Script ℕ
fails e algorithm key args n = (suc n, err e)

-- The server grants every call.
abbrev grants : Script ℕ
grants algorithm key args n = (suc n, ok (pos 1 ∷ pos 1 ∷ pos 20 ∷ pos 0 ∷ []))

abbrev healthy : RedisLimiter (fixed_point.F) ℕ
healthy = record {
  server = 0;
  breaker = new_breaker;
  fallback = some (new_memory_limiter fixed_point);
  backend = backend_redis;
}

abbrev open_backend : RedisLimiter (fixed_point.F) ℕ
open_backend = record healthy {
  breaker = record { state = open_circuit; failures = 5; opened_at = pos 20; gauge = 1 };
}

abbrev clock : Clock
clock = record { admitted = pos 23; recorded = pos 24; fallback = pos 25 }

abbrev user : Text
user = codes "ip:alice"

redis : Bool
unfolding allow window_micros decision_from_reply admit record_verdict ◌+ℤ◌ ◌-ℤ◌ text_eq
redis = true

granted :
    (allow fixed_point ℕ grants user two_in_ten_micros clock healthy).1
    ≡ ok (record {
      allowed = true;
      limit = pos 2;
      remaining = pos 1;
      reset = pos 62135596800000020000;
      retry_after = pos 0;
      degraded = false;
    })
unfolding redis
granted = refl

allow-Marked_example :
    Marked fixed_point ℕ grants healthy.fallback
      (reply_to fixed_point ℕ grants user two_in_ten_micros healthy)
      user
      two_in_ten_micros
      clock.fallback
      (allow fixed_point ℕ grants user two_in_ten_micros clock healthy)
allow-Marked_example = allow-Marked fixed_point ℕ grants user two_in_ten_micros clock healthy

open_backend-IsShut : IsShut open_backend.breaker clock.admitted
unfolding redis
open_backend-IsShut = inl (refl, omega arith)

micros_pos : pos 0 <ℤ window_micros two_in_ten_micros.window
unfolding redis
micros_pos = omega arith

abbrev while_shut : RedisLimiter (fixed_point.F) ℕ × Result RedisError Decision
while_shut = allow fixed_point ℕ (fails failed_call) user two_in_ten_micros clock open_backend

admits : admit (pos 23) new_breaker ≡ (new_breaker, true)
unfolding redis
admits = refl

abbrev in_outage : Result RedisError Decision
in_outage = (allow fixed_point ℕ (fails failed_call) user two_in_ten_micros clock healthy).1

abbrev calls : List Call
calls =
    record { key = user; limit = two_in_ten_micros; clock = clock }
    ∷ record { key = user; limit = two_in_ten_micros; clock = clock }
    ∷ []

results-policy_example :
    (on_error_degrade ≡ on_error_degrade
      → All
          (λ r. ¬ IsOutage fixed_point ℕ (fails failed_call) r)
          (results fixed_point ℕ
            (fails failed_call)
            (new_redis_limiter fixed_point ℕ on_error_degrade 0)
            calls))
    × (on_error_degrade ≢ on_error_degrade
        → All (IsUndegraded fixed_point ℕ (fails failed_call)) (
            results fixed_point ℕ
              (fails failed_call)
              (new_redis_limiter fixed_point ℕ on_error_degrade 0)
              calls))
results-policy_example = results-policy fixed_point ℕ (fails failed_call) on_error_degrade 0 calls

-- The circuit opened at 20; the first call comes a cooldown later.
abbrev late : Call
late = record {
  key = user;
  limit = two_in_ten_micros;
  clock = record {
    admitted = pos 1000000020;
    recorded = pos 1000000021;
    fallback = pos 1000000022;
  };
}

late-IsDue : IsDue open_backend.breaker late.clock.admitted
unfolding ◌+ℤ◌
late-IsDue = inr (refl, omega arith)

results-recover_example : AllOwn fixed_point ℕ grants open_backend (late ∷ late ∷ [])
results-recover_example =
    results-recover fixed_point ℕ grants open_backend late (late ∷ [])
      (λ algorithm key args server. (pos 1, pos 1, pos 20, pos 0, refl))
      (
        (two_in_ten_micros-IsValidLimit, micros_pos),
        ((two_in_ten_micros-IsValidLimit, micros_pos), tt),
      )
      late-IsDue
