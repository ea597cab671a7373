-- ===== src/Limiter/Instruments.antt =====
-- internal/limiter/limiter.go: Instruments with its defaults, and New with any of them. A hook
-- takes the state of what it observes to a new one.
use turnike.Common.{
  ℕ, Option, none, some, Text, text_eq, Result, ok, err, ◌≡◌, refl, if◌then◌else◌, Bool-cases, inl,
  inr,
}
use turnike.Config.{Limiter, backend_memory, backend_redis}
use turnike.Metrics.{Metrics, set_active_backend}
use turnike.Limiter.Float.{Float}
use turnike.Limiter.Breaker.{code, closed}
use turnike.Limiter.Memory.{new_memory_limiter}
use turnike.Limiter.Redis.{new_redis_limiter}
use turnike.Limiter.Select
use turnike.Limiter.Select.{Backend, in_memory, in_redis, NewError, unknown_backend}

-- `none` is a nil hook.
pub record Instruments (M : Type 0) : Type 0 where
  pub breaker : Option (ℕ → M → M)
  pub backend : Option (Text → M → M)

pub record Hooks (M : Type 0) : Type 0 where
  pub set : ℕ → M → M
  pub set_active_backend : Text → M → M

-- A hook, or nopGauge or nopBackend.
abbrev pub or_nop : {A M : Type 0} → Option (A → M → M) → A → M → M
or_nop none a m = m
or_nop (some hook) a m = hook a m

abbrev pub with_defaults : {M : Type 0} → Instruments M → Hooks M
with_defaults ins = record { set = or_nop ins.breaker; set_active_backend = or_nop ins.backend }

-- The command's: the gauges of internal/metrics.
abbrev pub process_instruments : Instruments Metrics
process_instruments = record {
  breaker = some (λ state m. record m { breaker_state = state });
  backend = some set_active_backend;
}

module _ (fl : Float) (R : Type 0) {M : Type 0} where
  open fl use {F}

  unfoldable pub new_observed : Instruments M → Limiter → R → M → M × Result NewError (Backend F R)
  new_observed ins cfg server m =
      let hooks = with_defaults ins in
      if text_eq cfg.backend backend_memory
      then (hooks.set_active_backend backend_memory m, ok (in_memory (new_memory_limiter fl)))
      else (if text_eq cfg.backend backend_redis
          then (
            hooks.set_active_backend backend_redis (hooks.set (code closed) m),
            ok (in_redis (new_redis_limiter fl R cfg.redis.on_error server)),
          )
          else (m, err (unknown_backend cfg.backend)))

-- With the command's instruments New is the one that the gateway starts with.
pub new_observed-process :
    (fl : Float) (R : Type 0) (cfg : Limiter) (server : R) (m : Metrics)
    → new_observed fl R process_instruments cfg server m ≡ Select.new fl R cfg server m
unfolding new_observed Select.new
new_observed-process fl R cfg server m = refl

-- Whatever observes it, New makes the limiter that it makes unobserved; unobserved, it changes nothing.
pub new_observed-unobserved :
    (fl : Float) (R : Type 0) {M : Type 0} (ins : Instruments M) (cfg : Limiter) (server : R)
    (m : M)
    → let nothing : Instruments M = record { breaker = none; backend = none } in
      ((new_observed fl R ins cfg server m).1 ≡ (new_observed fl R nothing cfg server m).1)
      × ((new_observed fl R nothing cfg server m).0 ≡ m)
unfolding new_observed
new_observed-unobserved fl R ins cfg server m =
    elim (Bool-cases (text_eq cfg.backend backend_memory)) [
      | inl memory ↦ rw memory (refl, refl)
      | inr other ↦ elim (Bool-cases (text_eq cfg.backend backend_redis)) [
        | inl redis ↦ rw (other, redis) (refl, refl)
        | inr unknown ↦ rw (other, unknown) (refl, refl)
      ]
    ]
