-- ===== src/Limiter/Select.antt =====
-- internal/limiter/limiter.go: New, and the Limiter interface over its two implementations. The
-- instruments are those of internal/metrics, which cmd/gateway always passes.
use turnike.Common.{
  ◌≡◌, ◌≢◌, ◌⊎◌, inl, inr, refl, ap, [], Text, text_eq, Result, ok, err, if◌then◌else◌,
}
use turnike.Config.{Limiter, Limit, backend_memory, backend_redis}
use turnike.Metrics.{new_metrics, Metrics, set_active_backend}
use turnike.Limiter.{Decision}
use turnike.Limiter.Float.{Float}
use turnike.Limiter.Breaker.{code, closed}
use turnike.Limiter.Memory
use turnike.Limiter.Memory.{MemoryLimiter, AllowError, new_memory_limiter}
use turnike.Limiter.Redis
use turnike.Limiter.Redis.{RedisLimiter, RedisError, Script, Clock, new_redis_limiter}

-- A Limiter.
pub data Backend (F R : Type 0) : Type 0 where
  in_memory : MemoryLimiter F → Backend F R
  in_redis : RedisLimiter F R → Backend F R

pub data LimiterError : Type 0 where
  memory_error : AllowError → LimiterError
  redis_error : RedisError → LimiterError

pub data NewError : Type 0 where
  unknown_backend : Text → NewError

module _ (fl : Float) (R : Type 0) where
  open fl use {F}

  -- New: the configured backend is marked as active, and a new breaker shows that it is closed.
  unfoldable pub new : Limiter → R → Metrics → Metrics × Result NewError (Backend F R)
  new cfg server m =
      if text_eq cfg.backend backend_memory
      then (set_active_backend backend_memory m, ok (in_memory (new_memory_limiter fl)))
      else (if text_eq cfg.backend backend_redis
          then (
            set_active_backend backend_redis (record m { breaker_state = code closed }),
            ok (in_redis (new_redis_limiter fl R cfg.redis.on_error server)),
          )
          else (m, err (unknown_backend cfg.backend)))

  from_memory :
      MemoryLimiter F × Result AllowError Decision → Backend F R × Result LimiterError Decision
  from_memory (m, ok d) = (in_memory m, ok d)
  from_memory (m, err e) = (in_memory m, err (memory_error e))

  from_redis :
      RedisLimiter F R × Result RedisError Decision → Backend F R × Result LimiterError Decision
  from_redis (s, ok d) = (in_redis s, ok d)
  from_redis (s, err e) = (in_redis s, err (redis_error e))

  -- Allow. The memory limiter reads the clock once.
  unfoldable pub allow :
      Script R → Clock → Text → Limit → Backend F R → Backend F R × Result LimiterError Decision
  unfolding from_memory from_redis
  allow script clock key l (in_memory m) = from_memory (Memory.allow fl key l clock.fallback m)
  allow script clock key l (in_redis s) = from_redis (Redis.allow fl R script key l clock s)

  -- The gauges after a call: what the limiter last set on its instruments.
  unfoldable pub show : Backend F R → Metrics → Metrics
  show (in_memory m) metrics = metrics
  show (in_redis s) metrics =
      set_active_backend s.backend (record metrics { breaker_state = s.breaker.gauge })

  -- A known backend, redis with an address, is made, and nothing is counted or observed yet.
  pub new-ok :
      (cfg : Limiter) (server : R)
      → (cfg.backend ≡ backend_memory) ⊎ ((cfg.backend ≡ backend_redis) × (cfg.redis.addr ≢ []))
      → (b : Backend F R) × (m : Metrics) × (new cfg server new_metrics ≡ (m, ok b))
        × (m.requests_total ≡ [])
        × (m.request_duration ≡ 0)
  unfolding new set_active_backend text_eq
  new-ok cfg server (inl e) = (
    in_memory (new_memory_limiter fl),
    set_active_backend backend_memory new_metrics,
    rw (ap (λ b. text_eq b backend_memory) e) refl,
    refl,
    refl,
  )
  new-ok cfg server (inr (e, _)) = (
    in_redis (new_redis_limiter fl R cfg.redis.on_error server),
    set_active_backend backend_redis (record new_metrics { breaker_state = code closed }),
    rw (ap (λ b. text_eq b backend_memory) e, ap (λ b. text_eq b backend_redis) e) refl,
    refl,
    refl,
  )
