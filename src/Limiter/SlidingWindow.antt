-- ===== src/Limiter/SlidingWindow.antt =====
-- internal/limiter/sliding_window.go.
pub mod Refinement
pub mod Quota
pub mod Retry
use mathlib.Core.Option
use turnike.Common.{
  ℤ, pos, ◌+ℤ◌, ◌-ℤ◌, ltb_ℤ, leb_ℤ, ℕ, suc, Bool, true, false, Option, none, some, List, [], ◌∷◌,
  ◌++◌, keep, length, last?, if◌then◌else◌,
}
use turnike.Config.{Limit, Duration}
use turnike.Limiter.{Time, Decision, clamp}

pub record SlidingWindow : Type 0 where
  pub timestamps : List Time

-- The zero value.
abbrev pub empty : SlidingWindow
empty = record { timestamps = [] }

-- What still counts at `now`: an entry exactly `window` old does not.
abbrev pub is_live : Duration → Time → Time → Bool
is_live window now ts = ltb_ℤ (now -ℤ window) ts

unfoldable pub evict : Duration → Time → List Time → List Time
evict window now = keep (is_live window now)

abbrev pub has_room : Limit → List Time → Bool
has_room l kept = ltb_ℤ (pos (length kept)) l.rate

abbrev pub append_if : Bool → Time → List Time → List Time
append_if allowed now kept = if allowed then kept ++ now ∷ [] else kept

-- The end of the newest entry's window.
abbrev pub clear_at : Limit → Time → Option Time → Time
clear_at l now none = now
clear_at l now (some newest) = newest +ℤ l.window

-- `timestamps[0]` of an empty log is a panic.
unfoldable pub retry_after : Limit → Time → Bool → List Time → Option Duration
retry_after l now true log = some (pos 0)
retry_after l now false [] = none
retry_after l now false (oldest ∷ log) = some ((oldest +ℤ l.window) -ℤ now)

abbrev pub decide : Limit → Time → Bool → List Time → Duration → SlidingWindow × Decision
decide l now allowed log retry = (
  record { timestamps = log },
  record {
    allowed = allowed;
    limit = l.rate;
    remaining = clamp (l.rate -ℤ pos (length log));
    reset = clear_at l now (last? log);
    retry_after = retry;
    degraded = false;
  },
)

-- `none` is a panic.
unfoldable pub step : Limit → Time → SlidingWindow → Option (SlidingWindow × Decision)
unfolding evict retry_after
step l now b =
    let kept = evict l.window now b.timestamps in
    let allowed = has_room l kept in
    let log = append_if allowed now kept in
    Option.map (decide l now allowed log) (retry_after l now allowed log)

-- The instants at which one bucket admits a request; a panic ends the run.
unfoldable pub admissions : Limit → SlidingWindow → List Time → List Time
admissions l b [] = []
admissions l b (t ∷ ts) = elim (step l t b) [
  | none ↦ []
  | some (b', d) ↦ let rest = admissions l b' ts in if d.allowed then t ∷ rest else rest
]

-- How many of the instants have a window that is still open at `now`.
unfoldable pub recent : Duration → Time → List Time → ℕ
recent w now [] = 0
recent w now (x ∷ xs) = let rest = recent w now xs in if ltb_ℤ now (x +ℤ w) then suc rest else rest

-- One more request stays within the rate.
abbrev pub fits : Limit → Time → List Time → Bool
fits l now history = leb_ℤ (pos (suc (recent l.window now history))) l.rate

-- The specification: `history` holds all that was admitted before, and a request is admitted if it
-- fits. It has nothing of the code but the type of its instants.
unfoldable pub ideal : Limit → List Time → List Time → List Time
ideal l history [] = []
ideal l history (t ∷ ts) =
    if fits l t history then t ∷ ideal l (history ++ t ∷ []) ts else ideal l history ts
