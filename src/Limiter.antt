-- ===== src/Limiter.antt =====
-- internal/limiter: the decision type, the clock's instants, and runs of one bucket. The children
-- are the three algorithms and what is built on them.
pub mod FixedWindow
pub mod SlidingWindow
pub mod Breaker
pub mod Float
pub mod TokenBucket
pub mod Memory
pub mod Redis
pub mod Select
pub mod Instruments
pub mod Scripts
pub mod Tests
use turnike.Common.{
  ℤ, pos, ◌-ℤ◌, leb_ℤ, ltb_ℤ, pos_part, floor_mod, ℕ, ◌+◌, Bool, List, [], ◌∷◌, if◌then◌else◌,
}
use turnike.Config.{Limit, Duration}

-- An instant, in nanoseconds since Go's zero time (which is 0).
abbrev pub Time : Type 0
Time = ℤ

pub record Decision : Type 0 where
  pub allowed : Bool
  pub limit : ℤ
  pub remaining : ℤ
  pub reset : Time
  pub retry_after : Duration
  pub degraded : Bool

-- time.Time.Truncate.
unfoldable pub truncate : Time → Duration → Time
unfolding ◌-ℤ◌ floor_mod
truncate t d = if leb_ℤ d (pos 0) then t else t -ℤ pos (floor_mod t (pos_part d))

-- `if n < 0 { n = 0 }`.
abbrev pub clamp : ℤ → ℤ
clamp n = if ltb_ℤ n (pos 0) then pos 0 else n

abbrev pub bool_to_ℕ : Bool → ℕ
bool_to_ℕ b = if b then 1 else 0

-- How many of the requests at these instants one bucket admits.
abbrev pub admitted {ℓ} :
    {S : Type ℓ} → (Limit → Time → S → S × Decision) → Limit → S → List Time → ℕ
admitted step l s [] = 0
admitted step l s (t ∷ ts) = bool_to_ℕ (step l t s).1.allowed + admitted step l (step l t s).0 ts
