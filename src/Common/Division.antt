-- ===== src/Common/Division.antt =====
-- The grid of multiples of a positive number: which grid point a number is rounded down to.
use Prim.Native.Nat.{ℕ, ◌+◌, ◌-◌, ◌%◌, ◌≤◌, ◌<◌}
use mathlib.Core.Path.{◌≡◌}
use native.Mathlib.Omega.{arith}

-- The multiple of `d` at or below `n`.
abbrev pub floor_to : ℕ → ℕ → ℕ
floor_to n d = n - n % d

pub floor_to_eq :
    (n m d : ℕ) → 0 < d → floor_to n d ≤ m → m < floor_to n d + d → floor_to m d ≡ floor_to n d
floor_to_eq n m d p h k = grind arith

pub floor_to_next : (n d : ℕ) → 0 < d → floor_to (floor_to n d + d) d ≡ floor_to n d + d
floor_to_next n d p = grind arith
