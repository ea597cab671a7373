-- ===== src/Limiter/Tests/Circuit.antt =====
-- The circuit breaker at concrete input.
use turnike.Common.{pos, ◌+ℤ◌, ◌-ℤ◌, Bool, true, none, some, List, [], ◌∷◌, ◌≡◌, refl, arith}
use turnike.Limiter.{Time}
use turnike.Limiter.Breaker.{
  Breaker, closed, open_circuit, half_open, success, failure, new_breaker, set_state, admit,
  supervise, record_verdict,
}
use turnike.Limiter.Breaker.Sequential.{reached, Spaced, reached-Spaced}
use turnike.Limiter.Breaker.Concurrent.{
  System, start, enter, call_returns, enters, Reach, here, next, IsSane, Reach-IsSane, second_probe,
}

abbrev four_failed : Breaker
four_failed = record new_breaker { failures = 4 }

abbrev tripped : Breaker
tripped = record { state = open_circuit; failures = 5; opened_at = pos 10; gauge = 1 }

breaker : Bool
unfolding admit record_verdict supervise ◌+ℤ◌ ◌-ℤ◌
breaker = true

-- The probe succeeds a second after the circuit opened.
recovery :
    supervise (pos 1000000010) (pos 1000000020) success tripped
    ≡ (record new_breaker { opened_at = pos 10 }, some success)
unfolding breaker
recovery = refl

-- A nanosecond earlier nobody is let through.
too_soon : supervise (pos 1000000009) (pos 1000000020) success tripped ≡ (tripped, none)
unfolding breaker
too_soon = refl

-- Three calls of an outage, of which the first comes too early.
abbrev outage : List (Time × Time)
outage = (pos 11, pos 12) ∷ (pos 1000000010, pos 1000000030) ∷ (pos 1000000040, pos 1000000050) ∷ []

reached-Spaced_example : Spaced (pos 10) (reached tripped outage)
reached-Spaced_example = reached-Spaced tripped outage refl

-- Two calls enter a closed circuit and one of them fails.
abbrev one_failed : System
one_failed = record {
  breaker =
      record_verdict failure (pos 3) (enter closed (pos 2) (enter closed (pos 1) start)).breaker;
  calls = 1;
  probes = 0;
}

one_failed-Reach : Reach start one_failed
unfolding breaker
one_failed-Reach =
    next (next (next here (enters start (pos 1))) (enters (enter closed (pos 1) start) (pos 2)))
      (call_returns (enter closed (pos 2) (enter closed (pos 1) start)) failure (pos 3) 1 refl)

Reach-IsSane_example : IsSane one_failed
Reach-IsSane_example = Reach-IsSane one_failed-Reach

-- A probe is out, and so is a call from before the circuit opened.
abbrev probing : System
probing = record { breaker = set_state half_open tripped; calls = 1; probes = 1 }

second_probe_example :
    (u : System) × Reach probing u × (u.breaker.state ≡ half_open) × (u.probes ≡ 2)
unfolding ◌+ℤ◌
second_probe_example = second_probe probing (pos 1000000010) 0 refl refl (omega arith)
