-- ===== src/Limiter/Scripts.antt =====
-- internal/limiter/scripts: the Lua scripts that redis runs. A time is redis TIME's, in microseconds.
pub mod Units
pub mod Zset
pub mod Sliding
pub mod Fixed
pub mod Bucket
use turnike.Common.{ℤ, pos, ℕ, Bool, List, [], ◌∷◌, if◌then◌else◌}

-- What a script returns, {allowed01, remaining, reset_us, retry_after_us}.
pub record Reply : Type 0 where
  pub allowed : Bool
  pub remaining : ℕ
  pub reset : ℕ
  pub retry : ℤ

abbrev pub values : Reply → List ℤ
values r = (if r.allowed then pos 1 else pos 0) ∷ pos r.remaining ∷ pos r.reset ∷ r.retry ∷ []
