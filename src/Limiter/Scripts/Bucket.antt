-- ===== src/Limiter/Scripts/Bucket.antt =====
-- internal/limiter/scripts/token_bucket.lua. A Lua number is a float64; '%.17g' and '%d' give the
-- stored fields back exactly.
pub mod Filled
pub mod Parity
use turnike.Common.{
  ℤ, pos, ◌+ℤ◌, ltb_ℤ, ltb, ℕ, ◌-◌, Bool, Option, none, some, List, [], ◌∷◌, if◌then◌else◌,
}
use turnike.Limiter.Float.{Float}

-- {tokens, last_us}, none when there is no such key.
pub record Bucket (F : Type 0) : Type 0 where
  pub tokens : F
  pub last : ℕ

pub record BucketReply : Type 0 where
  pub allowed : Bool
  pub remaining : ℤ
  pub reset : ℤ
  pub retry : ℤ

abbrev pub bucket_values : BucketReply → List ℤ
bucket_values r = (if r.allowed then pos 1 else pos 0) ∷ r.remaining ∷ r.reset ∷ r.retry ∷ []

-- What HSET stores, the milliseconds that PEXPIRE gives it, and the reply.
pub record Run (F : Type 0) : Type 0 where
  pub stored : Bucket F
  pub ttl : ℤ
  pub reply : BucketReply

-- `ceil` is math.ceil.
module _ (fl : Float) (ceil : fl.F → ℤ) where
  open fl use {F, of_int, add, sub, mul, div, leq, lt, min, floor, admit_level}

  -- Tokens for a microsecond.
  abbrev pub refill_per_us : (rate : ℕ) → (window : ℕ) → F
  refill_per_us rate window = div (of_int (pos rate)) (of_int (pos window))

  -- A fresh key starts full.
  abbrev pub fetch : (burst : ℕ) → (now : ℕ) → Option (Bucket F) → Bucket F
  fetch burst now none = record { tokens = of_int (pos burst); last = now }
  fetch burst now (some b) = b

  unfoldable pub refill : (burst : ℕ) → (rate : ℕ) → (window : ℕ) → (now : ℕ) → Bucket F → Bucket F
  refill burst rate window now b =
      if ltb b.last now
      then record {
        tokens =
            min (of_int (pos burst))
              (add b.tokens (mul (of_int (pos (now - b.last))) (refill_per_us rate window)));
        last = now;
      }
      else b

  unfoldable pub take : F → F
  take tokens =
      let left = sub tokens (of_int (pos 1)) in
      if lt left (of_int (pos 0)) then of_int (pos 0) else left

  -- The time until the bucket is full, in milliseconds and at least one.
  unfoldable pub time_to_live : F → ℤ
  time_to_live to_full =
      let ttl = ceil (div to_full (of_int (pos 1000))) in if ltb_ℤ ttl (pos 1) then pos 1 else ttl

  unfoldable pub conclude : (burst : ℕ) → (now : ℕ) → (per_us : F) → Bucket F → Run F
  unfolding take time_to_live
  conclude burst now per_us b =
      let allowed = leq admit_level b.tokens in
      let tokens = if allowed then take b.tokens else b.tokens in
      let to_full = div (sub (of_int (pos burst)) tokens) per_us in
      record {
        stored = record b { tokens = tokens };
        ttl = time_to_live to_full;
        reply = record {
          allowed = allowed;
          remaining = floor tokens;
          reset = pos now +ℤ ceil to_full;
          retry = if allowed then pos 0 else ceil (div (sub (of_int (pos 1)) tokens) per_us);
        };
      }

  unfoldable pub script :
      (burst : ℕ) → (rate : ℕ) → (window : ℕ) → (now : ℕ) → Option (Bucket F) → Run F
  unfolding refill conclude
  script burst rate window now st =
      conclude burst now (refill_per_us rate window)
        (refill burst rate window now (fetch burst now st))
