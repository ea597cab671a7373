-- ===== src/Limiter/FixedWindow/Retry.antt =====
-- internal/limiter/fixed_window.go on later requests: when a denied client gets through, and what
-- a clock that is stepped back does to the quota.
use Prim.Native.Nat.{min}
use native.Mathlib.Decide.{dec_le}
use native.Mathlib.Nat.{mod-le, mod-lt}
use turnike.Common.{
  pos, ◌+ℤ◌, ◌-ℤ◌, ◌<ℤ◌, leb_ℤ, eq_ℤ, pos_part, ℕ, ◌+◌, ◌≤◌, ◌<◌, floor_to, floor_to_eq,
  add-sub_cancel, pos_of_positive, false, List, All, length, ◌≡◌, ◌≢◌, ◌∙◌, ap, not, ◌==◌, leb,
  ◌≤ℤ◌, arith,
}
use turnike.Config.{Limit}
use turnike.Config.Limits.{IsValidLimit}
use turnike.Limiter.{Time, truncate, admitted}
use turnike.Limiter.FixedWindow.{FixedWindow, step}
use turnike.Limiter.FixedWindow.Quota.{truncate-pos, step-window_start, admitted-eq-min}

denied_state :
    (l : Limit) (t : Time) (b : FixedWindow)
    → (step l t b).1.allowed ≡ false
    → ((step l t b).0.window_start ≡ truncate t l.window)
      × (l.rate ≤ℤ pos (step l t b).0.count)
      × ((step l t b).1.retry_after ≡ (truncate t l.window +ℤ l.window) -ℤ t)
unfolding step
denied_state l t b h = ground arith

allowed-lem :
    (l : Limit) (t : Time) (b : FixedWindow)
    → l.rate ≤ℤ pos b.count
    → pos 0 <ℤ l.rate
    → (step l t b).1.allowed ≡ not (eq_ℤ (truncate t l.window) b.window_start)
unfolding step
allowed-lem l t b h p = ground arith

same_start :
    (n m d : ℕ) → 0 < d → n ≤ m → not (floor_to m d == floor_to n d) ≡ leb (floor_to n d + d) m
same_start n m d p h = elim (dec_le (floor_to n d + d) m) [
  | yes after ↦ ground (arith, after, mod-lt m p, mod-le m d)
  | no before ↦ ground (arith, floor_to_eq n m d p, mod-le n d)
]

-- Under a valid limit a client denied after the zero time is told exactly how long to wait: its next
-- request, no earlier than that one, is admitted if and only if the advised time has passed.
pub step-retry_after :
    (l : Limit) (n m : ℕ) (b : FixedWindow)
    → IsValidLimit l
    → (step l (pos n) b).1.allowed ≡ false
    → n ≤ m
    → (step l (pos m) (step l (pos n) b).0).1.allowed
      ≡ leb_ℤ (pos n +ℤ (step l (pos n) b).1.retry_after) (pos m)
step-retry_after l n m b valid h le =
    let (d, window, p) = pos_of_positive l.window valid.window in
    let (start, full, retry) = denied_state l (pos n) b h in
    rw
      (
        allowed-lem l (pos m) (step l (pos n) b).0 full valid.rate,
        start,
        retry,
        add-sub_cancel (pos n) (truncate (pos n) l.window +ℤ l.window),
        window,
        truncate-pos n d p,
        truncate-pos m d p,
      )
      (unfold ◌+ℤ◌ in ground (arith, same_start n m d p le))

-- After a request in any other window, earlier or later, of requests in one window as many are
-- admitted as there are or as the rate, whichever is less, whatever was admitted in it before.
pub step-renews :
    (l : Limit) (w t : Time) (b : FixedWindow) (ts : List Time)
    → truncate t l.window ≢ w
    → All (λ u. truncate u l.window ≡ w) ts
    → admitted step l (step l t b).0 ts ≡ min (length ts) (pos_part l.rate)
step-renews l w t b ts ne h =
    admitted-eq-min l w (step l t b).0 ts h
    ∙ ap (min (length ts)) (ground (arith, step-window_start l t b))
