-- ===== src/Limiter/Tests/Buckets.antt =====
-- The token_bucket script at concrete input, over the fixed-point arithmetic: two tokens, one more
-- every second.
use turnike.Common.{
  ℤ, pos, ◌+ℤ◌, ℕ, ◌+◌, ◌/◌, ◌-◌, true, false, none, some, [], ◌∷◌, ok, ◌≡◌, refl, arith,
}
use turnike.Limiter.Redis.{decision_from_reply}
use turnike.Limiter.TokenBucket.{empty}
use turnike.Limiter.Scripts.Bucket.{Bucket, script, take, time_to_live}
use turnike.Limiter.Scripts.Bucket.Parity.{
  bucket_limit, RoundsAlike, scripted, in_memory, scripted-in_memory_bucket,
}
use turnike.Limiter.Tests.FixedPoint.{fixed_point}

abbrev ceil : ℕ → ℤ
ceil a = pos ((a + 999999999) / 1000000000)

abbrev half_a_token : Bucket (fixed_point.F)
half_a_token = record { tokens = 500000000; last = 7000000 }

-- A second later there is a token and a half: one is taken, and the bucket is full after another second
-- and a half.
served : script fixed_point ceil 2 1 1000000 8000000 (some half_a_token) ≡ record {
  stored = record { tokens = 500000000; last = 8000000 };
  ttl = pos 1500;
  reply = record { allowed = true; remaining = pos 0; reset = pos 9500000; retry = pos 0 };
}
unfolding script take time_to_live ◌+ℤ◌
served = refl

-- Two calls are admitted, the third, at a clock that went back, is not, and a second later there is a
-- new token.
four_calls :
    scripted fixed_point ceil 2 1 1000000 none (7 ∷ 7 ∷ 6 ∷ 1000007 ∷ [])
    ≡ ok (record { allowed = true; limit = pos 2; remaining = pos 1 })
      ∷ ok (record { allowed = true; limit = pos 2; remaining = pos 0 })
      ∷ ok (record { allowed = false; limit = pos 2; remaining = pos 0 })
      ∷ ok (record { allowed = true; limit = pos 2; remaining = pos 0 })
      ∷ []
unfolding scripted script take decision_from_reply
four_calls = refl

-- Nanoseconds and tokens are one scale in the fixed-point arithmetic.
alike : (elapsed : ℕ) → RoundsAlike fixed_point ceil 2 1 1000000 elapsed
alike elapsed = omega arith

scripted-in_memory_bucket_example :
    scripted fixed_point ceil 2 1 1000000 none (7 ∷ 7 ∷ 6 ∷ 1000007 ∷ [])
    ≡ in_memory fixed_point ceil
        (bucket_limit 2 1 1000000)
        (empty fixed_point)
        (7 ∷ 7 ∷ 6 ∷ 1000007 ∷ [])
scripted-in_memory_bucket_example =
    scripted-in_memory_bucket fixed_point ceil 2 1 1000000 (7 ∷ 7 ∷ 6 ∷ 1000007 ∷ []) (omega arith)
      (omega arith) (omega arith) (λ s t h k later. alike (t - s))
