-- ===== src/Limiter/Tests/Windows.antt =====
-- The fixed and the sliding window at concrete input.
use turnike.Common.{
  pos, ◌+ℤ◌, ◌-ℤ◌, leb_ℤ, floor_mod, ◌≤◌, Bool, true, false, some, [], ◌∷◌, ◌≡◌, refl, inl, inr,
  arith,
}
use turnike.Config.{Limit, algo_fixed_window, algo_sliding_window}
use turnike.Config.Limits.{IsValidLimit}
use turnike.Limiter.{Decision, truncate, admitted}
use turnike.Limiter.FixedWindow
use turnike.Limiter.FixedWindow.{FixedWindow}
use turnike.Limiter.FixedWindow.Quota.{at}
use turnike.Limiter.FixedWindow.Retry.{step-retry_after, step-renews}
use turnike.Limiter.SlidingWindow
use turnike.Limiter.SlidingWindow.{SlidingWindow, admissions, ideal}
use turnike.Limiter.SlidingWindow.Refinement.{admissions-eq-ideal}
use turnike.Limiter.SlidingWindow.Quota.{admissions-quota, count_within}
use turnike.Limiter.SlidingWindow.Retry.{IsLog, step-retry_after_oldest}

-- Two requests in ten nanoseconds.
abbrev pub two_in_ten : Limit
two_in_ten = record { algorithm = algo_fixed_window; rate = pos 2; burst = pos 0; window = pos 10 }

abbrev pub sliding_two : Limit
sliding_two = record two_in_ten { algorithm = algo_sliding_window }

pub two_in_ten-IsValidLimit : IsValidLimit two_in_ten
two_in_ten-IsValidLimit = record {
  rate = omega arith;
  window = omega arith;
  algorithm = inr (inl refl, refl);
}

pub sliding_two-IsValidLimit : IsValidLimit sliding_two
sliding_two-IsValidLimit = record {
  rate = omega arith;
  window = omega arith;
  algorithm = inr (inr refl, refl);
}

-- The window that began at 20 is used up.
abbrev used_up : FixedWindow
used_up = record { window_start = pos 20; count = 2 }

fixed_window : Bool
unfolding FixedWindow.step truncate floor_mod ◌+ℤ◌ ◌-ℤ◌
fixed_window = true

denied_at_23 : (FixedWindow.step two_in_ten (pos 23) used_up).1 ≡ record {
  allowed = false;
  limit = pos 2;
  remaining = pos 0;
  reset = pos 30;
  retry_after = pos 7;
  degraded = false;
}
unfolding fixed_window
denied_at_23 = refl

-- Four requests pass within four nanoseconds across a boundary.
boundary : admitted FixedWindow.step two_in_ten FixedWindow.empty (at (28 ∷ 29 ∷ 30 ∷ 31 ∷ [])) ≡ 4
unfolding fixed_window
boundary = refl

step-retry_after_example :
    (FixedWindow.step two_in_ten
      (pos 30)
      (FixedWindow.step two_in_ten (pos 23) used_up).0).1.allowed
    ≡ leb_ℤ (pos 23 +ℤ (FixedWindow.step two_in_ten (pos 23) used_up).1.retry_after) (pos 30)
unfolding fixed_window
step-retry_after_example =
    step-retry_after two_in_ten 23 30 used_up two_in_ten-IsValidLimit refl (omega arith)

-- The clock goes back from the used-up window and comes again: the quota is granted twice.
step-renews_example :
    admitted FixedWindow.step two_in_ten
      (FixedWindow.step two_in_ten (pos 19) used_up).0
      (at (23 ∷ 24 ∷ 25 ∷ []))
    ≡ 2
unfolding fixed_window
step-renews_example =
    step-renews two_in_ten (pos 20) (pos 19) used_up (at (23 ∷ 24 ∷ 25 ∷ [])) (λ e. cc)
      (refl, (refl, (refl, tt)))

sliding_window : Bool
unfolding SlidingWindow.step admissions ideal ◌+ℤ◌ ◌-ℤ◌
sliding_window = true

-- The third request comes before the first is a window old, the fourth when it just is.
sliding_run :
    admissions sliding_two SlidingWindow.empty (at (28 ∷ 29 ∷ 37 ∷ 38 ∷ []))
    ≡ at (28 ∷ 29 ∷ 38 ∷ [])
unfolding sliding_window
sliding_run = refl

abbrev staggered : SlidingWindow
staggered = record { timestamps = pos 28 ∷ pos 29 ∷ [] }

denied_at_33 :
    SlidingWindow.step sliding_two (pos 33) staggered
    ≡ some (
      staggered,
      record {
        allowed = false;
        limit = pos 2;
        remaining = pos 0;
        reset = pos 39;
        retry_after = pos 5;
        degraded = false;
      },
    )
unfolding sliding_window
denied_at_33 = refl

staggered-IsLog : IsLog sliding_two (pos 29) staggered.timestamps
staggered-IsLog = record { sorted = omega arith; past = omega arith; bounded = omega arith }

admissions-eq-ideal_example :
    admissions sliding_two SlidingWindow.empty (at (28 ∷ 29 ∷ 37 ∷ 38 ∷ []))
    ≡ ideal sliding_two [] (at (28 ∷ 29 ∷ 37 ∷ 38 ∷ []))
admissions-eq-ideal_example =
    admissions-eq-ideal sliding_two (at (28 ∷ 29 ∷ 37 ∷ 38 ∷ [])) (omega arith) (omega arith)

admissions-quota_example :
    count_within
      (pos 28)
      (pos 10)
      (admissions sliding_two SlidingWindow.empty (at (28 ∷ 29 ∷ 37 ∷ 38 ∷ [])))
    ≤ 2
admissions-quota_example =
    admissions-quota sliding_two (pos 28) (at (28 ∷ 29 ∷ 37 ∷ 38 ∷ [])) (omega arith) (omega arith)

step-retry_after_oldest_example :
    (r : SlidingWindow × Decision) × (SlidingWindow.step sliding_two (pos 38) staggered ≡ some r)
    × (r.1.allowed ≡ leb_ℤ (pos 33 +ℤ pos 5) (pos 38))
step-retry_after_oldest_example =
    step-retry_after_oldest sliding_two (pos 29) (pos 33) (pos 38) staggered staggered _
      (omega arith) staggered-IsLog (omega arith) denied_at_33 refl
