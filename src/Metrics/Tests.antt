-- ===== src/Metrics/Tests.antt =====
-- The backend gauge at concrete input: one call after the other.
use turnike.Common.{ℕ, none, some, List, [], ◌∷◌, Text, text_eq, ◌≡◌, inr, refl}
use turnike.Config.{backend_redis, backend_memory}
use turnike.Metrics.Flips.{
  Flips, before_flips, write_series, locks, writes, unlocks, Reach, here, next, Shows, Reach-Shows,
}

-- The gauge after a call for the memory backend.
abbrev gauge_after : List (Text × ℕ)
gauge_after =
    write_series backend_memory backend_memory
      (write_series backend_memory backend_redis before_flips.gauge)

abbrev flipped : Flips
flipped = record { gauge = gauge_after; holder = none; last = some backend_memory }

flipped_once : Reach before_flips flipped
flipped_once =
    next
      (next
        (next (next here (locks backend_memory (inr refl) refl))
          (writes backend_memory backend_redis (backend_memory ∷ []) refl))
        (writes backend_memory backend_memory [] refl))
      (unlocks backend_memory refl)

gauge_here : gauge_after ≡ (backend_redis, 0) ∷ (backend_memory, 1) ∷ []
unfolding write_series text_eq
gauge_here = refl

Reach-Shows_example : Shows (some backend_memory) gauge_after
Reach-Shows_example = Reach-Shows flipped flipped_once refl
