-- ===== src/Limiter/Float.antt =====
-- float64, as far as token_bucket.go computes with it. The kernel has no floats: the type, its
-- operations and the conversions of packages math and time are a parameter. The laws hold of the
-- finite values that a valid limit meets (no NaN), by monotone rounding and the exactness of small
-- integers.
use turnike.Common.{ℤ, pos, ◌≤ℤ◌, ◌<ℤ◌, ℕ, suc, ◌^◌, ◌<◌, leb, Bool, true, false, ◌≡◌}

pub record Float : Type 1 where
  pub F : Type 0
  -- float64(n).
  pub of_int : ℤ → F
  pub add : F → F → F
  pub sub : F → F → F
  pub mul : F → F → F
  pub div : F → F → F
  pub leq : F → F → Bool
  pub lt : F → F → Bool
  -- math.Min.
  pub min : F → F → F
  -- int(math.Floor(x)).
  pub floor : F → ℤ
  -- int64(x).
  pub to_int64 : F → ℤ
  -- time.Duration.Seconds.
  pub seconds : ℤ → F
  -- The constant 1 - tokenEpsilon.
  pub admit_level : F
  pub leq_trans : (a b c : F) → leq a b ≡ true → leq b c ≡ true → leq a c ≡ true
  pub leq_total : (a b : F) → leq a b ≡ false → leq b a ≡ true
  pub lt_leq : (a b : F) → lt a b ≡ false → leq b a ≡ true
  pub min_left : (a b : F) → leq (min a b) a ≡ true
  pub min_above : (c a b : F) → leq c a ≡ true → leq c b ≡ true → leq c (min a b) ≡ true
  pub add_nonneg :
      (a b : F)
      → leq (of_int (pos 0)) a ≡ true
      → leq (of_int (pos 0)) b ≡ true
      → leq (of_int (pos 0)) (add a b) ≡ true
  pub mul_nonneg :
      (a b : F)
      → leq (of_int (pos 0)) a ≡ true
      → leq (of_int (pos 0)) b ≡ true
      → leq (of_int (pos 0)) (mul a b) ≡ true
  pub div_nonneg :
      (a b : F)
      → leq (of_int (pos 0)) a ≡ true
      → leq b (of_int (pos 0)) ≡ false
      → leq (of_int (pos 0)) (div a b) ≡ true
  pub sub_one_leq : (a : F) → leq (sub a (of_int (pos 1))) a ≡ true
  pub of_int_mono : (a b : ℤ) → a ≤ℤ b → leq (of_int a) (of_int b) ≡ true
  pub seconds_pos : (d : ℤ) → pos 0 <ℤ d → leq (seconds d) (of_int (pos 0)) ≡ false
  pub floor_mono : (a b : F) → leq a b ≡ true → floor a ≤ℤ floor b
  pub floor_of_int : (n : ℕ) → n < 2 ^ 53 → floor (of_int (pos n)) ≡ pos n
  -- Integers up to 2^53 are exact, and the admit level lies between 0 and 1.
  pub sub_one_exact :
      (n : ℕ) → n < 2 ^ 53 → sub (of_int (pos (suc n))) (of_int (pos 1)) ≡ of_int (pos n)
  pub nonneg_lt : (n : ℕ) → lt (of_int (pos n)) (of_int (pos 0)) ≡ false
  pub admits_from_one : (n : ℕ) → n < 2 ^ 53 → leq admit_level (of_int (pos n)) ≡ leb 1 n
