-- ===== src/Limiter/TokenBucket/Bounds.antt =====
-- internal/limiter/token_bucket.go: how many tokens a bucket holds, and how many requests it serves
-- without a refill.
use Prim.Native.Nat.{min as min_ℕ}
use turnike.Common.{
  pos, ◌-ℤ◌, ◌<ℤ◌, ◌≤ℤ◌, ltb_ℤ, eq_ℤ, -ℤ_parts, ℕ, suc, zero, ◌^◌, ◌-◌, ◌<◌, leb, true,
  if◌then◌else◌, List, [], ◌∷◌, All, length, ◌≡◌, ◌≢◌, refl, ap, ◌∙◌, arith, Bool-cases, inl, inr,
}
use turnike.Config.{Limit}
use turnike.Config.Limits.{IsValidLimit}
use turnike.Limiter.{Time, admitted}
use turnike.Limiter.Float.{Float}
use turnike.Limiter.TokenBucket.{TokenBucket, refill, spend, decide, step, refill_per_sec, empty}

module _ (fl : Float) where
  open fl use {
    F, of_int, add, sub, mul, div, leq, lt, floor, to_int64, seconds, admit_level, leq_trans,
    leq_total, lt_leq, min_left, min_above, add_nonneg, mul_nonneg, div_nonneg, sub_one_leq,
    of_int_mono, seconds_pos, floor_mono, floor_of_int, sub_one_exact, nonneg_lt, admits_from_one,
  }

  -- A bucket that a request has touched: its tokens lie between nothing and the burst.
  pub record IsFilled (l : Limit) (b : TokenBucket F) : Type 0 where
    pub nonneg : leq (of_int (pos 0)) b.tokens ≡ true
    pub below : leq b.tokens (of_int l.burst) ≡ true

  -- A bucket as the limiter meets it: not used yet, or filled.
  abbrev pub IsBucket : Limit → TokenBucket F → Type 0
  IsBucket l b = b.last ≢ pos 0 → IsFilled l b

  leq_refl : (t : F) → leq t t ≡ true
  leq_refl t = ground (arith, leq_total t t)

  spend-bounds :
      (t : F)
      → leq (of_int (pos 0)) t ≡ true
      → (leq (of_int (pos 0)) (spend fl t) ≡ true) × (leq (spend fl t) t ≡ true)
  unfolding spend
  spend-bounds t h = ground (
    arith,
    sub_one_leq t,
    of_int_mono (pos 0) (pos 0),
    lt_leq (sub t (of_int (pos 1))) (of_int (pos 0)),
  )

  refill_per_sec-nonneg :
      (l : Limit) → IsValidLimit l → leq (of_int (pos 0)) (refill_per_sec fl l) ≡ true
  refill_per_sec-nonneg l v =
      div_nonneg (of_int l.rate) (seconds l.window) (of_int_mono (pos 0) l.rate (omega arith))
        (seconds_pos l.window v.window)

  refilled-nonneg :
      (l : Limit) (b : TokenBucket F) (now : Time)
      → IsValidLimit l
      → b.last <ℤ now
      → leq (of_int (pos 0)) b.tokens ≡ true
      → leq (of_int (pos 0)) (add b.tokens (mul (seconds (now -ℤ b.last)) (refill_per_sec fl l)))
        ≡ true
  refilled-nonneg l b now v le h =
      let later : pos 0 <ℤ (now -ℤ b.last) = omega (arith, -ℤ_parts now b.last) in
      add_nonneg b.tokens _ h (
        mul_nonneg (seconds (now -ℤ b.last)) (refill_per_sec fl l)
          (leq_total (seconds (now -ℤ b.last)) (of_int (pos 0)) (seconds_pos (now -ℤ b.last) later))
          (refill_per_sec-nonneg l v))

  refill-IsFilled :
      (l : Limit) (now : Time) (b : TokenBucket F)
      → IsValidLimit l
      → pos 0 <ℤ l.burst
      → IsBucket l b
      → IsFilled l (refill fl l now b)
  unfolding refill
  refill-IsFilled l now b v p h = elim (Bool-cases (eq_ℤ b.last (pos 0))) [
    | inl first ↦ rw first (record {
      nonneg = of_int_mono (pos 0) l.burst (omega arith);
      below = of_int_mono l.burst l.burst (omega arith);
    })
    | inr used ↦ elim (Bool-cases (ltb_ℤ b.last now)) [
      | inl later ↦
          let filled = h (λ e. cc) in
          let more = refilled-nonneg l b now v (ground (arith, later)) filled.nonneg in
          rw (used, later)
            (record {
              nonneg = min_above _ _ _ (of_int_mono (pos 0) l.burst (omega arith)) more;
              below = min_left _ _;
            })
      | inr same ↦ rw (used, same) (h (λ e. cc))
    ]
  ]

  remaining_tokens :
      (t : F)
      → leq (of_int (pos 0)) t ≡ true
      → (leq (of_int (pos 0)) (if leq admit_level t then spend fl t else t) ≡ true)
        × (leq (if leq admit_level t then spend fl t else t) t ≡ true)
  remaining_tokens t h = elim (Bool-cases (leq admit_level t)) [
    | inl enough ↦ rw enough (spend-bounds t h)
    | inr short ↦ rw short (h, leq_refl t)
  ]

  decide-IsFilled :
      (l : Limit) (now : Time) (b : TokenBucket F) (n : ℕ)
      → l.burst ≡ pos n
      → n < 2 ^ 53
      → IsFilled l b
      → IsFilled l (decide fl l now b).0
        × (pos 0 ≤ℤ (decide fl l now b).1.remaining)
        × ((decide fl l now b).1.remaining ≤ℤ l.burst)
  unfolding decide
  decide-IsFilled l now b n e small f =
      let (nonneg, less) = remaining_tokens b.tokens f.nonneg in
      let below = leq_trans _ b.tokens (of_int l.burst) less f.below in
      let whole = floor_mono _ (of_int l.burst) below in
      let at_most : floor (of_int l.burst) ≡ pos n = rw e (floor_of_int n small) in
      (record { nonneg = nonneg; below = below }, ground arith, ground (arith, whole, at_most, e))

  -- Under a valid limit with a burst below 2 ^ 53, every request at a new or filled bucket leaves
  -- between nothing and the burst, and reports a remainder in that range.
  step-IsFilled :
      (l : Limit) (now : Time) (b : TokenBucket F) (n : ℕ)
      → IsValidLimit l
      → l.burst ≡ pos n
      → 0 < n
      → n < 2 ^ 53
      → IsBucket l b
      → IsFilled l (step fl l now b).0
        × (pos 0 ≤ℤ (step fl l now b).1.remaining)
        × ((step fl l now b).1.remaining ≤ℤ l.burst)
  unfolding step
  step-IsFilled l now b n v e p small h =
      decide-IsFilled l now (refill fl l now b) n e small
        (refill-IsFilled l now b v (ground (arith, e, p)) h)

  refill-stays :
      (l : Limit) (now : Time) (b : TokenBucket F)
      → b.last ≢ pos 0
      → now ≤ℤ b.last
      → refill fl l now b ≡ b
  unfolding refill
  refill-stays l now b used old = ground arith

  -- A first request meets the same bucket as one that was filled at that instant.
  pub step-first :
      (l : Limit) (now : Time)
      → now ≢ pos 0
      → step fl l now (empty fl) ≡ step fl l now (record { tokens = of_int l.burst; last = now })
  unfolding step
  step-first l now used =
      rw (refill-stays l now (record { tokens = of_int l.burst; last = now }) used (omega arith))
        (unfold refill in refl)

  -- A bucket of m whole tokens, at an instant no later than its last refill.
  step-whole :
      (l : Limit) (now last : Time) (m : ℕ)
      → m < 2 ^ 53
      → last ≢ pos 0
      → now ≤ℤ last
      → ((step fl l now (record { tokens = of_int (pos m); last = last })).1.allowed ≡ leb 1 m)
        × ((step fl l now (record { tokens = of_int (pos m); last = last })).0
            ≡ record { tokens = of_int (pos (m - 1)); last = last })
  unfolding step decide spend
  step-whole l now last zero small used old =
      let still =
        refill-stays l now (record { tokens = of_int (pos zero); last = last }) used old in
      rw still (ground (arith, admits_from_one 0 small))
  step-whole l now last (suc m) small used old =
      let still =
        refill-stays l now (record { tokens = of_int (pos (suc m)); last = last }) used old in
      rw still
        (ground (arith, admits_from_one (suc m) small, sub_one_exact m (omega arith), nonneg_lt m))

  -- Requests at instants no later than the last refill get no new tokens: from m < 2 ^ 53 whole tokens
  -- as many are served as there are requests or tokens, whichever is less, however the clock stands
  -- still or goes back.
  admitted-whole :
      (l : Limit) (last : Time) (m : ℕ) (ts : List Time)
      → m < 2 ^ 53
      → last ≢ pos 0
      → All (λ t. t ≤ℤ last) ts
      → admitted (step fl) l (record { tokens = of_int (pos m); last = last }) ts
        ≡ min_ℕ (length ts) m
  admitted-whole l last m [] small used h = omega arith
  admitted-whole l last m (t ∷ ts) small used (h, hs) =
      let (allowed, next) = step-whole l t last m small used h in
      rw (allowed, next) (ground (arith, admitted-whole l last (m - 1) ts (omega arith) used hs))

  -- A new bucket whose first request comes at `now` serves, of that one and others no later, as many
  -- as there are or as its burst (below 2 ^ 53) holds, whichever is less.
  admitted-burst :
      (l : Limit) (now : Time) (m : ℕ) (ts : List Time)
      → l.burst ≡ pos (suc m)
      → suc m < 2 ^ 53
      → now ≢ pos 0
      → All (λ t. t ≤ℤ now) ts
      → admitted (step fl) l (empty fl) (now ∷ ts) ≡ min_ℕ (suc (length ts)) (suc m)
  admitted-burst l now m ts e small used h =
      let first =
        step-first l now used
        ∙ ap (λ n. step fl l now (record { tokens = of_int n; last = now })) e in
      rw first (admitted-whole l now (suc m) (now ∷ ts) small used (omega arith, h))
