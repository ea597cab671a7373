-- ===== src/Limiter/FixedWindow.antt =====
-- internal/limiter/fixed_window.go.
pub mod Quota
pub mod Retry
use turnike.Common.{ℤ, pos, ◌+ℤ◌, ◌-ℤ◌, ltb_ℤ, eq_ℤ, ℕ, suc, false, if◌then◌else◌}
use turnike.Config.{Limit}
use turnike.Limiter.{Time, Decision, truncate, clamp}

pub record FixedWindow : Type 0 where
  pub window_start : Time
  pub count : ℕ

-- The zero value.
abbrev pub empty : FixedWindow
empty = record { window_start = pos 0; count = 0 }

-- A window other than the stored one starts a new count.
roll : Time → FixedWindow → FixedWindow
roll start b = if eq_ℤ start b.window_start then b else record { window_start = start; count = 0 }

-- The decision once the window is the current one.
unfoldable pub decide : Limit → Time → FixedWindow → FixedWindow × Decision
decide l now b =
    let reset = b.window_start +ℤ l.window in
    let allowed = ltb_ℤ (pos b.count) l.rate in
    let count = if allowed then suc b.count else b.count in
    (
      record b { count = count },
      record {
        allowed = allowed;
        limit = l.rate;
        remaining = clamp (l.rate -ℤ pos count);
        reset = reset;
        retry_after = if allowed then pos 0 else reset -ℤ now;
        degraded = false;
      },
    )

unfoldable pub step : Limit → Time → FixedWindow → FixedWindow × Decision
unfolding roll decide
step l now b = decide l now (roll (truncate now l.window) b)
