-- ===== src/Limiter/TokenBucket.antt =====
-- internal/limiter/token_bucket.go, over the float64 of Limiter/Float.antt.
pub mod Bounds
use turnike.Common.{ℤ, pos, ◌+ℤ◌, ◌-ℤ◌, ltb_ℤ, eq_ℤ, Bool, true, false, if◌then◌else◌}
use turnike.Config.{Limit, Duration}
use turnike.Limiter.{Time, Decision, clamp}
use turnike.Limiter.Float.{Float}

-- `last` is the zero time until the first step.
pub record TokenBucket (F : Type 0) : Type 0 where
  pub tokens : F
  pub last : Time

module _ (fl : Float) where
  open fl use {F, of_int, add, sub, mul, div, leq, lt, min, floor, to_int64, seconds, admit_level}

  -- The zero value.
  abbrev pub empty : TokenBucket F
  empty = record { tokens = of_int (pos 0); last = pos 0 }

  abbrev pub refill_per_sec : Limit → F
  refill_per_sec l = div (of_int l.rate) (seconds l.window)

  unfoldable pub seconds_to_duration : F → Duration
  seconds_to_duration s =
      if leq s (of_int (pos 0)) then pos 0 else to_int64 (mul s (of_int (pos 1000000000)))

  -- The switch: a first request starts full, a later instant refills, any other grants nothing.
  unfoldable pub refill : Limit → Time → TokenBucket F → TokenBucket F
  refill l now b =
      if eq_ℤ b.last (pos 0)
      then record { tokens = of_int l.burst; last = now }
      else (if ltb_ℤ b.last now
          then record {
            tokens =
                min (of_int l.burst)
                  (add b.tokens (mul (seconds (now -ℤ b.last)) (refill_per_sec l)));
            last = now;
          }
          else b)

  -- The tokens left after one is taken.
  unfoldable pub spend : F → F
  spend tokens =
      let left = sub tokens (of_int (pos 1)) in
      if lt left (of_int (pos 0)) then of_int (pos 0) else left

  unfoldable pub decide : Limit → Time → TokenBucket F → TokenBucket F × Decision
  unfolding spend seconds_to_duration
  decide l now b =
      let allowed = leq admit_level b.tokens in
      let tokens = if allowed then spend b.tokens else b.tokens in
      (
        record b { tokens = tokens },
        record {
          allowed = allowed;
          limit = l.burst;
          remaining = clamp (floor tokens);
          reset = now +ℤ seconds_to_duration (div (sub (of_int l.burst) tokens) (refill_per_sec l));
          retry_after =
              if allowed
              then pos 0
              else seconds_to_duration (div (sub (of_int (pos 1)) tokens) (refill_per_sec l));
          degraded = false;
        },
      )

  unfoldable pub step : Limit → Time → TokenBucket F → TokenBucket F × Decision
  unfolding refill decide
  step l now b = decide l now (refill l now b)
