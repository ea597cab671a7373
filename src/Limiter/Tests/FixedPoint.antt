-- ===== src/Limiter/Tests/FixedPoint.antt =====
-- A concrete arithmetic in which the laws of Limiter/Float.antt hold: fixed point with nine decimals.
use turnike.Common.{
  ℤ, pos, pos_part, ◌≤ℤ◌, ◌<ℤ◌, ℕ, suc, ◌+◌, ◌-◌, ◌*◌, ◌/◌, ◌^◌, ◌<◌, true, false, leb, ltb, ◌≡◌,
  arith, if◌then◌else◌,
}
use turnike.Limiter.Float.{Float}

abbrev pub one : ℕ
one = 1000000000

abbrev pub of_int : ℤ → ℕ
of_int n = pos_part n * one

abbrev pub least : ℕ → ℕ → ℕ
least a b = if leb a b then a else b

pub leq_trans : (a b c : ℕ) → leb a b ≡ true → leb b c ≡ true → leb a c ≡ true
leq_trans a b c h k = ground arith

pub leq_total : (a b : ℕ) → leb a b ≡ false → leb b a ≡ true
leq_total a b h = ground arith

pub lt_leq : (a b : ℕ) → ltb a b ≡ false → leb b a ≡ true
lt_leq a b h = ground arith

pub min_left : (a b : ℕ) → leb (least a b) a ≡ true
min_left a b = ground arith

pub min_above : (c a b : ℕ) → leb c a ≡ true → leb c b ≡ true → leb c (least a b) ≡ true
min_above c a b h k = ground arith

pub nonneg : (a : ℕ) → leb (of_int (pos 0)) a ≡ true
nonneg a = ground arith

pub sub_one_leq : (a : ℕ) → leb (a - of_int (pos 1)) a ≡ true
sub_one_leq a = ground arith

pub of_int_mono : (a b : ℤ) → a ≤ℤ b → leb (of_int a) (of_int b) ≡ true
of_int_mono a b h = ground arith

pub seconds_pos : (d : ℤ) → pos 0 <ℤ d → leb (pos_part d) (of_int (pos 0)) ≡ false
seconds_pos d h = ground arith

pub floor_mono : (a b : ℕ) → leb a b ≡ true → pos (a / one) ≤ℤ pos (b / one)
floor_mono a b h = ground arith

pub floor_of_int : (n : ℕ) → n < 2 ^ 53 → ◌≡◌ {A = ℤ} (pos (of_int (pos n) / one)) (pos n)
floor_of_int n h = ground arith

pub sub_one_exact : (n : ℕ) → n < 2 ^ 53 → of_int (pos (suc n)) - of_int (pos 1) ≡ of_int (pos n)
sub_one_exact n h = omega arith

pub nonneg_lt : (n : ℕ) → ltb (of_int (pos n)) (of_int (pos 0)) ≡ false
nonneg_lt n = ground arith

pub admits_from_one : (n : ℕ) → n < 2 ^ 53 → leb 999999999 (of_int (pos n)) ≡ leb 1 n
admits_from_one n h = ground arith

abbrev pub fixed_point : Float
fixed_point = record {
  F = ℕ;
  of_int = of_int;
  add = ◌+◌;
  sub = ◌-◌;
  mul = λ a b. a * b / one;
  div = λ a b. a * one / b;
  leq = leb;
  lt = ltb;
  min = least;
  floor = λ a. pos (a / one);
  to_int64 = λ a. pos (a / one);
  seconds = pos_part;
  admit_level = 999999999;
  leq_trans = leq_trans;
  leq_total = leq_total;
  lt_leq = lt_leq;
  min_left = min_left;
  min_above = min_above;
  add_nonneg = λ a b h k. nonneg (a + b);
  mul_nonneg = λ a b h k. nonneg (a * b / one);
  div_nonneg = λ a b h k. nonneg (a * one / b);
  sub_one_leq = sub_one_leq;
  of_int_mono = of_int_mono;
  seconds_pos = seconds_pos;
  floor_mono = floor_mono;
  floor_of_int = floor_of_int;
  sub_one_exact = sub_one_exact;
  nonneg_lt = nonneg_lt;
  admits_from_one = admits_from_one;
}
