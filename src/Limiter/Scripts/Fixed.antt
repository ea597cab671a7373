-- ===== src/Limiter/Scripts/Fixed.antt =====
-- internal/limiter/scripts/fixed_window.lua.
pub mod Quota
pub mod Grid
pub mod Parity
use turnike.Common.{
  ℤ, pos, sub_ℕ, ltb, leb, ℕ, ◌+◌, ◌-◌, Bool, Option, none, some, if◌then◌else◌, floor_to,
}
use turnike.Limiter.Scripts.{Reply}

-- {ws, count}, none when there is no such key.
abbrev pub Stored : Type 0
Stored = Option (ℕ × ℕ)

-- The stored window unless the one that `ws` opens is newer.
abbrev pub adopt : ℕ → Stored → ℕ × ℕ
adopt ws none = (ws, 0)
adopt ws (some (sws, count)) = if leb ws sws then (sws, count) else (ws, 0)

abbrev pub conclude : ℕ → ℕ → ℕ → Stored → ℕ × ℕ → Stored × Reply
conclude rate window now st (ws, seen) =
    let allowed = ltb seen rate in
    let count = if allowed then seen + 1 else seen in
    (
      if allowed then some (ws, count) else st,
      record {
        allowed = allowed;
        remaining = rate - count;
        reset = ws + window;
        retry = if allowed then pos 0 else sub_ℕ (ws + window) now;
      },
    )

-- The script, but for PEXPIREAT: that the key may be gone once its window is over is the caller's.
unfoldable pub script : (rate : ℕ) → (window : ℕ) → (now : ℕ) → Stored → Stored × Reply
script rate window now st = conclude rate window now st (adopt (floor_to now window) st)
