-- ===== src/Limiter/Tests/Tokens.antt =====
-- The token bucket at concrete input, over the fixed-point arithmetic.
use turnike.Common.{pos, ◌+ℤ◌, ◌-ℤ◌, Bool, true, false, ◌≡◌, refl, inl, arith}
use turnike.Config.{Limit, algo_token_bucket}
use turnike.Config.Limits.{IsValidLimit}
use turnike.Limiter.TokenBucket
use turnike.Limiter.TokenBucket.{TokenBucket, seconds_to_duration}
use turnike.Limiter.Tests.FixedPoint.{fixed_point}

-- Two tokens, one more every second.
abbrev pub one_per_second : Limit
one_per_second = record {
  algorithm = algo_token_bucket;
  rate = pos 1;
  burst = pos 2;
  window = pos 1000000000;
}

pub one_per_second-IsValidLimit : IsValidLimit one_per_second
one_per_second-IsValidLimit = record {
  rate = omega arith;
  window = omega arith;
  algorithm = inl (refl, omega arith);
}

abbrev one_and_a_half : TokenBucket (fixed_point.F)
one_and_a_half = record { tokens = 1500000000; last = pos 3 }

token_bucket : Bool
unfolding TokenBucket.step seconds_to_duration ◌+ℤ◌ ◌-ℤ◌
token_bucket = true

-- Half a token is left, so the bucket is full again in one second and a half.
served_at_3 : (TokenBucket.step fixed_point one_per_second (pos 3) one_and_a_half).1 ≡ record {
  allowed = true;
  limit = pos 2;
  remaining = pos 0;
  reset = pos 1500000003;
  retry_after = pos 0;
  degraded = false;
}
unfolding token_bucket
served_at_3 = refl
