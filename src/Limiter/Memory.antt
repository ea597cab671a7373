-- ===== src/Limiter/Memory.antt =====
-- internal/limiter/memory.go. The mutex makes each call one step; the clock's reading is an
-- argument, and the capacity `maxKeys` is a field, as the source keeps it a variable.
pub mod Capacity
pub mod Isolation
pub mod Kinds
pub mod Quota
use mathlib.Core.Option
use turnike.Common.{
  ℤ, ℕ, leb, Option, none, some, List, [], ◌∷◌, ◌++◌, length, lookup, insert, Text, text_eq, codes,
  Result, ok, err, if◌then◌else◌,
}
use turnike.Config.{Limit, algo_fixed_window, algo_token_bucket, algo_sliding_window}
use turnike.Limiter.{Time, Decision}
use turnike.Limiter.Float.{Float}
use turnike.Limiter.FixedWindow
use turnike.Limiter.FixedWindow.{FixedWindow}
use turnike.Limiter.SlidingWindow
use turnike.Limiter.SlidingWindow.{SlidingWindow}
use turnike.Limiter.TokenBucket
use turnike.Limiter.TokenBucket.{TokenBucket}

-- The bucket interface's implementations.
pub data Bucket (F : Type 0) : Type 0 where
  fixed : FixedWindow → Bucket F
  token : TokenBucket F → Bucket F
  sliding : SlidingWindow → Bucket F

-- Why a limiter gives no decision. `panicked` is an index out of range.
pub data AllowError : Type 0 where
  at_capacity : ℕ → AllowError
  unknown_algorithm : Text → AllowError
  panicked : AllowError

pub record MemoryLimiter (F : Type 0) : Type 0 where
  pub max_keys : ℕ
  pub state : List (Text × Bucket F)

abbrev pub default_max_keys : ℕ
default_max_keys = 100000

-- The algorithm is part of the bucket's identity.
abbrev pub state_key : Limit → Text → Text
state_key l key = l.algorithm ++ b':' ∷ key

module _ (fl : Float) where
  open fl use {F}

  abbrev pub new_memory_limiter : MemoryLimiter F
  new_memory_limiter = record { max_keys = default_max_keys; state = [] }

  unfoldable pub step : Limit → Time → Bucket F → Option (Bucket F × Decision)
  step l now (fixed b) = let (b', d) = FixedWindow.step l now b in some (fixed b', d)
  step l now (token b) = let (b', d) = TokenBucket.step fl l now b in some (token b', d)
  step l now (sliding b) = Option.map (λ r. (sliding r.0, r.1)) (SlidingWindow.step l now b)

  unfoldable pub new_bucket : Text → Option (Bucket F)
  new_bucket algorithm =
      if text_eq algorithm algo_fixed_window
      then some (fixed FixedWindow.empty)
      else (if text_eq algorithm algo_token_bucket
          then some (token (TokenBucket.empty fl))
          else (if text_eq algorithm algo_sliding_window
              then some (sliding SlidingWindow.empty)
              else none))

  -- The step of the bucket under a key. Only an emptied log panics, and it stays behind.
  store :
      MemoryLimiter F
      → Text
      → Option (Bucket F × Decision)
      → MemoryLimiter F × Result AllowError Decision
  store m sk none =
      (record m { state = insert text_eq sk (sliding SlidingWindow.empty) m.state }, err panicked)
  store m sk (some (b, d)) = (record m { state = insert text_eq sk b m.state }, ok d)

  -- A new key gets its bucket.
  start :
      MemoryLimiter F
      → Limit
      → Text
      → Time
      → Option (Bucket F)
      → MemoryLimiter F × Result AllowError Decision
  unfolding store
  start m l sk now none = (m, err (unknown_algorithm l.algorithm))
  start m l sk now (some b) = store m sk (step l now b)

  find :
      MemoryLimiter F
      → Limit
      → Text
      → Time
      → Option (Bucket F)
      → MemoryLimiter F × Result AllowError Decision
  unfolding start store
  find m l sk now (some b) = store m sk (step l now b)
  find m l sk now none =
      if leb m.max_keys (length m.state)
      then (m, err (at_capacity m.max_keys))
      else start m l sk now (new_bucket l.algorithm)

  unfoldable pub allow :
      Text → Limit → Time → MemoryLimiter F → MemoryLimiter F × Result AllowError Decision
  unfolding find
  allow key l now m = find m l (state_key l key) now (lookup text_eq (state_key l key) m.state)
