-- ===== src/Limiter/Tests/Keys.antt =====
-- The memory backend at concrete input.
use turnike.Common.{
  ℤ, pos, ◌+ℤ◌, ◌-ℤ◌, floor_mod, ◌≤◌, Bool, true, none, List, [], ◌∷◌, keep, length, lookup, Text,
  text_eq, codes, ok, err, ◌≡◌, ◌⊎◌, refl,
}
use turnike.Limiter.{Decision, truncate}
use turnike.Limiter.FixedWindow
use turnike.Limiter.FixedWindow.{FixedWindow}
use turnike.Limiter.Memory.{fixed, MemoryLimiter, at_capacity, state_key, step, new_bucket, allow}
use turnike.Limiter.Memory.Capacity.{allow-outcome}
use turnike.Limiter.Memory.Isolation.{Request, is_for, answers_for, alone, answers_for-eq-alone}
use turnike.Limiter.Memory.Kinds.{IsKinded}
use turnike.Limiter.Tests.FixedPoint.{fixed_point}
use turnike.Limiter.Tests.Windows.{two_in_ten, two_in_ten-IsValidLimit}

abbrev alice : Text
alice = codes "ip:alice"

abbrev bob : Text
bob = codes "ip:bob"

abbrev half_used : FixedWindow
half_used = record { window_start = pos 20; count = 1 }

-- A map with room for one key, which alice has taken.
abbrev one_key : MemoryLimiter (fixed_point.F)
one_key = record { max_keys = 1; state = (state_key two_in_ten alice, fixed half_used) ∷ [] }

memory : Bool
unfolding allow step new_bucket FixedWindow.step truncate floor_mod ◌+ℤ◌ ◌-ℤ◌ text_eq
memory = true

bob_is_refused : allow fixed_point bob two_in_ten (pos 23) one_key ≡ (one_key, err (at_capacity 1))
unfolding memory
bob_is_refused = refl

allow-outcome_example :
    ((d : Decision) × ((allow fixed_point bob two_in_ten (pos 23) one_key).1 ≡ ok d))
    ⊎ ((allow fixed_point bob two_in_ten (pos 23) one_key ≡ (one_key, err (at_capacity 1)))
        × (lookup text_eq (state_key two_in_ten bob) one_key.state ≡ none)
        × (1 ≤ length one_key.state))
allow-outcome_example =
    allow-outcome fixed_point bob two_in_ten (pos 23) one_key two_in_ten-IsValidLimit

abbrev asks : Text → ℤ → Request
asks key now = record { key = key; limit = two_in_ten; now = now }

abbrev mixed : List Request
mixed = asks alice (pos 23) ∷ asks bob (pos 24) ∷ asks alice (pos 25) ∷ []

abbrev alice_key : Text
alice_key = state_key two_in_ten alice

answers_for-eq-alone_example :
    answers_for fixed_point alice_key one_key mixed
    ≡ alone fixed_point (fixed half_used) (keep (is_for alice_key) mixed)
unfolding text_eq
answers_for-eq-alone_example =
    answers_for-eq-alone fixed_point alice_key one_key (fixed half_used) mixed refl

one_key-IsKinded : IsKinded fixed_point one_key.state
one_key-IsKinded = ((alice, refl), tt)
