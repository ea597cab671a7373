-- ===== src/Limiter/Scripts/Bucket/Filled.antt =====
-- internal/limiter/scripts/token_bucket.lua: how many tokens a key holds.
use turnike.Common.{
  ℤ, pos, ◌≤ℤ◌, ltb, ℕ, ◌^◌, ◌<◌, true, false, Option, none, some, ◌≡◌, arith, if◌then◌else◌,
  Bool-cases, inl, inr,
}
use turnike.Limiter.Float.{Float}
use turnike.Limiter.Scripts.Bucket.{
  Bucket, refill_per_us, fetch, refill, take, time_to_live, conclude, script,
}

module _ (fl : Float) (ceil : fl.F → ℤ) where
  open fl use {
    F, of_int, add, sub, mul, div, leq, lt, floor, admit_level, leq_trans, leq_total, lt_leq,
    min_left, min_above, add_nonneg, mul_nonneg, div_nonneg, sub_one_leq, of_int_mono, floor_mono,
    floor_of_int,
  }

  -- Between nothing and the burst.
  pub record Holds (burst : ℕ) (tokens : F) : Type 0 where
    pub nonneg : leq (of_int (pos 0)) tokens ≡ true
    pub below : leq tokens (of_int (pos burst)) ≡ true

  abbrev pub IsStored : ℕ → Option (Bucket F) → Type 0
  IsStored burst none = Unit
  IsStored burst (some b) = Holds burst b.tokens

  pub fetch-Holds :
      (burst now : ℕ) (st : Option (Bucket F))
      → IsStored burst st
      → Holds burst (fetch fl ceil burst now st).tokens
  fetch-Holds burst now none h = record {
    nonneg = of_int_mono (pos 0) (pos burst) (omega arith);
    below = of_int_mono (pos burst) (pos burst) (omega arith);
  }
  fetch-Holds burst now (some b) h = h

  positive : (w : ℕ) → 0 < w → w < 2 ^ 53 → leq (of_int (pos w)) (of_int (pos 0)) ≡ false
  positive w p small = elim (Bool-cases (leq (of_int (pos w)) (of_int (pos 0)))) [
    | inl le_zero ↦
        let le = floor_mono (of_int (pos w)) (of_int (pos 0)) le_zero in
        absurd (ground (arith, le, floor_of_int w small, floor_of_int 0 (omega arith), p))
    | inr above_zero ↦ above_zero
  ]

  refill-Holds :
      (burst rate window now : ℕ) (b : Bucket F)
      → 0 < window
      → window < 2 ^ 53
      → Holds burst b.tokens
      → Holds burst (refill fl ceil burst rate window now b).tokens
  unfolding refill
  refill-Holds burst rate window now b p small h = elim (Bool-cases (ltb b.last now)) [
    | inl later ↦ rw later (record {
      nonneg = min_above _ _ _ (of_int_mono (pos 0) (pos burst) (omega arith)) (
          add_nonneg b.tokens _ h.nonneg (
            mul_nonneg _ _ (of_int_mono (pos 0) _ (omega arith)) (
              div_nonneg (of_int (pos rate)) (of_int (pos window))
                (of_int_mono (pos 0) (pos rate) (omega arith)) (positive window p small))));
      below = min_left _ _;
    })
    | inr old ↦ rw old h
  ]

  leq_refl : (t : F) → leq t t ≡ true
  leq_refl t = ground (arith, leq_total t t)

  take-bounds :
      (t : F)
      → leq (of_int (pos 0)) t ≡ true
      → (leq (of_int (pos 0)) (take fl ceil t) ≡ true) × (leq (take fl ceil t) t ≡ true)
  unfolding take
  take-bounds t h = ground (
    arith,
    sub_one_leq t,
    of_int_mono (pos 0) (pos 0),
    lt_leq (sub t (of_int (pos 1))) (of_int (pos 0)),
  )

  after_call :
      (t : F)
      → leq (of_int (pos 0)) t ≡ true
      → (leq (of_int (pos 0)) (if leq admit_level t then take fl ceil t else t) ≡ true)
        × (leq (if leq admit_level t then take fl ceil t else t) t ≡ true)
  after_call t h = elim (Bool-cases (leq admit_level t)) [
    | inl enough ↦ rw enough (take-bounds t h)
    | inr short ↦ rw short (h, leq_refl t)
  ]

  pub floor-nonneg : (t : F) → leq (of_int (pos 0)) t ≡ true → pos 0 ≤ℤ floor t
  floor-nonneg t h =
      let le = floor_mono (of_int (pos 0)) t h in ground (arith, le, floor_of_int 0 (omega arith))

  -- A call leaves the tokens that it found, refilled, or takes from them.
  conclude-Holds :
      (burst now : ℕ) (per_us : F) (b : Bucket F)
      → Holds burst b.tokens
      → Holds burst (conclude fl ceil burst now per_us b).stored.tokens
        × (leq (conclude fl ceil burst now per_us b).stored.tokens b.tokens ≡ true)
  unfolding conclude
  conclude-Holds burst now per_us b h =
      let (nonneg, less) = after_call b.tokens h.nonneg in
      (record { nonneg = nonneg; below = leq_trans _ b.tokens _ less h.below }, less)

  -- With a positive window below 2 ^ 53 microseconds and a burst below 2 ^ 53, whatever the clock
  -- reads: a call at no key, or at one that holds between nothing and the burst, leaves one that
  -- does, for at least a millisecond, and reports a remainder in that range.
  pub script-Holds :
      (burst rate window now : ℕ) (st : Option (Bucket F))
      → burst < 2 ^ 53
      → 0 < window
      → window < 2 ^ 53
      → IsStored burst st
      → let run = script fl ceil burst rate window now st in
        Holds burst run.stored.tokens
        × (pos 1 ≤ℤ run.ttl)
        × (pos 0 ≤ℤ run.reply.remaining)
        × (run.reply.remaining ≤ℤ pos burst)
  unfolding script conclude time_to_live
  script-Holds burst rate window now st small p short h =
      let b = fetch fl ceil burst now st in
      let full = refill-Holds burst rate window now b p short (fetch-Holds burst now st h) in
      let (kept, _) =
        conclude-Holds burst now (refill_per_us fl ceil rate window)
          (refill fl ceil burst rate window now b) full in
      let at_most = floor_mono _ _ kept.below in
      (
        kept,
        ground arith,
        floor-nonneg _ kept.nonneg,
        ground (arith, at_most, floor_of_int burst small),
      )
