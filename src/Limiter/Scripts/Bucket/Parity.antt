-- ===== src/Limiter/Scripts/Bucket/Parity.antt =====
-- internal/limiter/scripts/token_bucket.lua and token_bucket.go: the verdicts of the two, at a key that
-- does not expire and for refills that round alike.
use turnike.Common.{
  ℤ, pos, ℕ, ◌*◌, ◌^◌, ◌<◌, Bool, true, Option, none, some, List, [], ◌∷◌, All, Result, ok, err,
  pos_part, ◌≢◌, ◌≡◌, refl, ap, ap₂, sym, ◌∙◌, arith, Bool-cases, inl, inr, In, ltb, ltb_ℤ, eq_ℤ,
  ltb→lt, false, ◌-◌, ◌-ℤ◌,
}
use turnike.Config.{Limit, algo_token_bucket}
use turnike.Limiter.{Decision, clamp}
use turnike.Limiter.Float.{Float}
use turnike.Limiter.TokenBucket
use turnike.Limiter.TokenBucket.{TokenBucket, step, decide, spend, refill_per_sec, empty}
use turnike.Limiter.TokenBucket.Bounds.{step-first}
use turnike.Limiter.Redis.{RedisError, decision_from_reply}
use turnike.Limiter.Scripts.Units.{at}
use turnike.Limiter.Scripts.Bucket.{
  Bucket, bucket_values, refill_per_us, refill, take, conclude, script,
}
use turnike.Limiter.Scripts.Bucket.Filled.{Holds, fetch-Holds, script-Holds, floor-nonneg}

-- A decision but for its times, which the two round each in its own way.
pub record Verdict : Type 0 where
  pub allowed : Bool
  pub limit : ℤ
  pub remaining : ℤ

abbrev pub verdict_of : Decision → Verdict
verdict_of d = record { allowed = d.allowed; limit = d.limit; remaining = d.remaining }

abbrev pub verdict_from_reply : Result RedisError Decision → Result RedisError Verdict
verdict_from_reply (ok d) = ok (verdict_of d)
verdict_from_reply (err e) = err e

abbrev pub bucket_limit : (burst rate window : ℕ) → Limit
bucket_limit burst rate window = record {
  algorithm = algo_token_bucket;
  rate = pos rate;
  burst = pos burst;
  window = pos (window * 1000);
}

at_ne_zero : (now : ℕ) → at now ≢ pos 0
at_ne_zero now e = absurd (omega (arith, ap pos_part e))

ltb-at : (s t : ℕ) → ltb_ℤ (at s) (at t) ≡ ltb s t
ltb-at s t = ground arith

not_zero : (us : ℕ) → eq_ℤ (at us) (pos 0) ≡ false
not_zero us = ground arith

All_of_each : (P : ℕ → Type 0) (ts : List ℕ) → ((t : ℕ) → In t ts → P t) → All P ts
All_of_each P [] h = tt
All_of_each P (t ∷ ts) h = (h t (inl refl), All_of_each P ts (λ x k. h x (inr k)))

module _ (fl : Float) (ceil : fl.F → ℤ) where
  open fl use {F, of_int, leq, lt, sub, mul, seconds, floor, admit_level}

  abbrev kept_as : Bucket F → TokenBucket F
  kept_as b = record { tokens = b.tokens; last = at b.last }

  take-eq : (t : F) → take fl ceil t ≡ spend fl t
  unfolding take spend
  take-eq t = refl

  clamp_floor : (t : F) → leq (of_int (pos 0)) t ≡ true → clamp (floor t) ≡ floor t
  clamp_floor t h = let whole = floor-nonneg fl ceil t h in ground arith

  -- From the same tokens the two decide alike.
  conclude-parity :
      (burst rate window now : ℕ) (per_us : F) (b : Bucket F)
      → Holds fl ceil burst (conclude fl ceil burst now per_us b).stored.tokens
      → (verdict_from_reply (
            decision_from_reply
              (bucket_values (conclude fl ceil burst now per_us b).reply)
              (pos burst))
          ≡ ok (verdict_of (decide fl (bucket_limit burst rate window) (at now) (kept_as b)).1))
        × ((decide fl (bucket_limit burst rate window) (at now) (kept_as b)).0
            ≡ kept_as (conclude fl ceil burst now per_us b).stored)
  unfolding conclude take decide spend decision_from_reply
  conclude-parity burst rate window now per_us b h = elim (Bool-cases (leq admit_level b.tokens)) [
    | inl enough ↦
        let nonneg = rw (enough, take-eq b.tokens) at h.nonneg in
        rw (enough, take-eq b.tokens, clamp_floor (spend fl b.tokens) nonneg) (refl, refl)
    | inr short ↦
        let nonneg = rw short at h.nonneg in rw (short, clamp_floor b.tokens nonneg) (refl, refl)
  ]

  -- The two refills of so many microseconds round to the same number of tokens: by `now - last` at the
  -- rate per microsecond, and by the Duration's Seconds at the rate per second.
  abbrev pub RoundsAlike : (burst rate window elapsed : ℕ) → Type 0
  RoundsAlike burst rate window elapsed =
      mul (of_int (pos elapsed)) (refill_per_us fl ceil rate window)
      ≡ mul (seconds (pos (elapsed * 1000))) (refill_per_sec fl (bucket_limit burst rate window))

  elapsed_eq : (now last : ℕ) → last < now → at now -ℤ at last ≡ pos ((now - last) * 1000)
  unfolding ◌-ℤ◌
  elapsed_eq now last h = ground arith

  refill-parity :
      (burst rate window now : ℕ) (b : Bucket F)
      → (b.last < now → RoundsAlike burst rate window (now - b.last))
      → TokenBucket.refill fl (bucket_limit burst rate window) (at now) (kept_as b)
        ≡ kept_as (refill fl ceil burst rate window now b)
  unfolding TokenBucket.refill refill
  refill-parity burst rate window now b alike = elim (Bool-cases (ltb b.last now)) [
    | inl later ↦
        let lt : b.last < now = ltb→lt b.last now later in
        rw (not_zero b.last, ltb-at b.last now, later, elapsed_eq now b.last lt, sym (alike lt))
          refl
    | inr old ↦ rw (not_zero b.last, ltb-at b.last now, old) refl
  ]

  -- And so they do from the same bucket.
  step-parity :
      (burst rate window now : ℕ) (b : Bucket F)
      → (b.last < now → RoundsAlike burst rate window (now - b.last))
      → Holds fl ceil burst (script fl ceil burst rate window now (some b)).stored.tokens
      → (verdict_from_reply (
            decision_from_reply
              (bucket_values (script fl ceil burst rate window now (some b)).reply)
              (pos burst))
          ≡ ok (verdict_of (step fl (bucket_limit burst rate window) (at now) (kept_as b)).1))
        × ((step fl (bucket_limit burst rate window) (at now) (kept_as b)).0
            ≡ kept_as (script fl ceil burst rate window now (some b)).stored)
  unfolding script step
  step-parity burst rate window now b alike h = rw (refill-parity burst rate window now b alike) (
      conclude-parity burst rate window now (refill_per_us fl ceil rate window)
        (refill fl ceil burst rate window now b) h)

  -- The verdicts of the calls that come in turn, at one key that does not expire and at one bucket of
  -- the memory backend.
  unfoldable pub scripted :
      (burst rate window : ℕ) → Option (Bucket F) → List ℕ → List (Result RedisError Verdict)
  scripted burst rate window st [] = []
  scripted burst rate window st (now ∷ ts) =
      let run = script fl ceil burst rate window now st in
      let rest = scripted burst rate window (some run.stored) ts in
      verdict_from_reply (decision_from_reply (bucket_values run.reply) (pos burst)) ∷ rest

  unfoldable pub in_memory : Limit → TokenBucket F → List ℕ → List (Result RedisError Verdict)
  in_memory l b [] = []
  in_memory l b (now ∷ ts) =
      let out = step fl l (at now) b in
      let rest = in_memory l out.0 ts in ok (verdict_of out.1) ∷ rest

  -- The key's time is one of the readings, or stays.
  stored-In :
      (burst rate window now : ℕ) (b : Bucket F) (readings : List ℕ)
      → In now readings
      → In b.last readings
      → In (script fl ceil burst rate window now (some b)).stored.last readings
  unfolding script conclude refill
  stored-In burst rate window now b readings h k = ground arith

  -- A filled bucket, at some of the readings of a clock.
  parity_from :
      (burst rate window : ℕ) (readings : List ℕ) (b : Bucket F) (ts : List ℕ)
      → burst < 2 ^ 53
      → 0 < window
      → window < 2 ^ 53
      → ((s t : ℕ) → In s readings → In t readings → s < t → RoundsAlike burst rate window (t - s))
      → Holds fl ceil burst b.tokens
      → In b.last readings
      → All (λ t. In t readings) ts
      → scripted burst rate window (some b) ts
        ≡ in_memory (bucket_limit burst rate window) (kept_as b) ts
  unfolding scripted in_memory
  parity_from burst rate window readings b [] small p short alike h seen all = refl
  parity_from burst rate window readings b (t ∷ ts) small p short alike h seen (k, all) =
      let (kept, _, _, _) = script-Holds fl ceil burst rate window t (some b) small p short h in
      let (same, next) = step-parity burst rate window t b (alike b.last t seen k) kept in
      ap₂ (λ x xs. x ∷ xs) same
        (parity_from burst rate window readings (script fl ceil burst rate window t (some b)).stored
            ts small p short alike kept (stored-In burst rate window t b readings k seen) all
          ∙ ap (λ s. in_memory (bucket_limit burst rate window) s ts) (sym next))

  -- With a burst below 2 ^ 53 and a positive window below 2 ^ 53 microseconds, at any readings of a
  -- clock that may be stepped back, and if the refills for the time between any two of these readings
  -- round alike, redis gives every call at a key that does not expire the verdict that a new bucket of
  -- the memory backend gives: whether it is admitted, the limit and the remainder.
  pub scripted-in_memory_bucket :
      (burst rate window : ℕ) (ts : List ℕ)
      → burst < 2 ^ 53
      → 0 < window
      → window < 2 ^ 53
      → ((s t : ℕ) → In s ts → In t ts → s < t → RoundsAlike burst rate window (t - s))
      → scripted burst rate window none ts
        ≡ in_memory (bucket_limit burst rate window) (empty fl) ts
  unfolding scripted in_memory script
  scripted-in_memory_bucket burst rate window [] small p short alike = refl
  scripted-in_memory_bucket burst rate window (now ∷ ts) small p short alike =
      let full : Bucket F = record { tokens = of_int (pos burst); last = now } in
      let first = step-first fl (bucket_limit burst rate window) (at now) (at_ne_zero now) in
      parity_from burst rate window (now ∷ ts) full (now ∷ ts) small p short alike
        (fetch-Holds fl ceil burst now none tt) (inl refl)
        (All_of_each (λ t. In t (now ∷ ts)) (now ∷ ts) (λ t k. k))
      ∙ ap
          (λ out.
            (let rest = in_memory (bucket_limit burst rate window) out.0 ts in
              ok (verdict_of out.1) ∷ rest))
          (sym first)
