-- ===== src/Limiter/Breaker/Sequential.antt =====
-- internal/limiter/breaker.go: calls of redis one after the other: when the circuit trips, what an
-- outage costs, and recovery.
use turnike.Common.{
  ◌+ℤ◌, ◌-ℤ◌, ◌≤ℤ◌, ltb_ℤ, leb, ltb, +ℤ_parts, -ℤ_parts, ℕ, suc, ◌+◌, ◌<◌, true, false, none, some,
  List, [], ◌∷◌, All, if◌then◌else◌, ◌≡◌, ◌≢◌, refl, ap, ◌↔◌, ◌⊎◌, arith, Bool-cases, inl, inr,
}
use turnike.Limiter.{Time}
use turnike.Limiter.Breaker.{
  set_state, closed, open_circuit, Verdict, success, cancelled, failure, Breaker,
  breaker_failure_threshold, breaker_cooldown, admit, record_verdict, supervise,
}

-- What the calls in flight report, in order.
pub record_all : List (Verdict × Time) → Breaker → Breaker
record_all [] b = b
record_all ((v, t) ∷ vs) b = record_all vs (record_verdict v t b)

-- How many of the verdicts are failures.
abbrev pub failures_in : List (Verdict × Time) → ℕ
failures_in [] = 0
failures_in ((failure, t) ∷ vs) = suc (failures_in vs)
failures_in ((_, t) ∷ vs) = failures_in vs

record-open :
    (v : Verdict) (t : Time) (b : Breaker) → b.state ≡ open_circuit → record_verdict v t b ≡ b
unfolding record_verdict
record-open v t b h = ground arith

-- What a closed circuit makes of a verdict that is no success.
record-closed :
    (t : Time) (b : Breaker)
    → b.state ≡ closed
    → (record_verdict cancelled t b ≡ b)
      × (record_verdict failure t b ≡ (
          if leb breaker_failure_threshold (suc b.failures)
          then record (set_state open_circuit b) { failures = suc b.failures; opened_at = t }
          else record b { failures = suc b.failures }))
unfolding record_verdict
record-closed t b h = ground arith

record_all-open :
    (vs : List (Verdict × Time)) (b : Breaker) → b.state ≡ open_circuit → record_all vs b ≡ b
unfolding record_all
record_all-open [] b h = refl
record_all-open ((v, t) ∷ vs) b h = rw (record-open v t b h) (record_all-open vs b h)

-- While no call succeeds, a closed circuit that has counted fewer failures than the threshold trips
-- exactly when the failures in all reach it; cancelled calls neither count nor reset.
record_all-trips :
    (vs : List (Verdict × Time)) (b : Breaker)
    → b.state ≡ closed
    → b.failures < breaker_failure_threshold
    → All (λ v. v.0 ≢ success) vs
    → (record_all vs b).state ≡ (
        if ltb (b.failures + failures_in vs) breaker_failure_threshold
        then closed
        else open_circuit)
unfolding record_all
record_all-trips [] b h f a = ground arith
record_all-trips ((success, t) ∷ vs) b h f (a, rest) = absurd (a refl)
record_all-trips ((cancelled, t) ∷ vs) b h f (a, rest) =
    rw (record_all, (record-closed t b h).0) (record_all-trips vs b h f rest)
record_all-trips ((failure, t) ∷ vs) b h f (a, rest) =
    elim (Bool-cases (leb breaker_failure_threshold (suc b.failures))) [
      | inl trip ↦
          rw
            (
              record_all,
              (record-closed t b h).1,
              trip,
              record_all-open vs
                  (record (set_state open_circuit b) { failures = suc b.failures; opened_at = t })
                  refl,
            )
            (ground (arith, trip))
      | inr stay ↦
          rw (record_all, (record-closed t b h).1, stay)
            (ground (
              arith,
              stay,
              record_all-trips vs (record b { failures = suc b.failures }) h (ground (arith, stay))
                  rest,
            ))
    ]

-- The calls that reach redis in an outage, in which every call that runs fails. A call is its start
-- and its end.
pub reached : Breaker → List (Time × Time) → List (Time × Time)
reached b [] = []
reached b ((start, end) ∷ cs) =
    let rest = reached (supervise start end failure b).0 cs in
    elim (supervise start end failure b).1 [ none ↦ rest | some v ↦ (start, end) ∷ rest ]

-- Every call starts a cooldown or more after the end of the one before, the first after `t`.
abbrev pub Spaced : Time → List (Time × Time) → Type 0
Spaced t [] = Unit
Spaced t ((start, end) ∷ cs) = (t +ℤ breaker_cooldown ≤ℤ start) × Spaced end cs

-- The cooldown has passed at `start` and at any later time.
not_soon :
    (b : Breaker) (start : Time)
    → b.opened_at +ℤ breaker_cooldown ≤ℤ start
    → ltb_ℤ (start -ℤ b.opened_at) breaker_cooldown ≡ false
not_soon b start h =
    ground (arith, +ℤ_parts b.opened_at breaker_cooldown, -ℤ_parts start b.opened_at)

probe_cases :
    (b : Breaker) (start end : Time)
    → b.state ≡ open_circuit
    → (supervise start end failure b ≡ (b, none))
      ⊎ ((b.opened_at +ℤ breaker_cooldown ≤ℤ start)
          × (supervise start end failure b
              ≡ (record b { state = open_circuit; gauge = 1; opened_at = end }, some failure)))
unfolding supervise
probe_cases b start end h = elim (Bool-cases (ltb_ℤ (start -ℤ b.opened_at) breaker_cooldown)) [
  | inl soon ↦ inl (ground (arith, soon))
  | inr due ↦ inr (
    ground (arith, due, +ℤ_parts b.opened_at breaker_cooldown, -ℤ_parts start b.opened_at),
    ground (arith, due),
  )
]

-- Once the circuit is open, an outage in which calls come one after the other costs at most one call
-- of redis per cooldown: each starts a cooldown or more after the end of the one before.
pub reached-Spaced :
    (b : Breaker) (cs : List (Time × Time))
    → b.state ≡ open_circuit
    → Spaced b.opened_at (reached b cs)
unfolding reached
reached-Spaced b [] h = tt
reached-Spaced b ((start, end) ∷ cs) h = elim (probe_cases b start end h) [
  | inl rejected ↦
      rw (reached, ap (λ r. r.1) rejected, ap (λ r. r.0) rejected) (reached-Spaced b cs h)
  | inr (late, probed) ↦
      rw (reached, ap (λ r. r.1) probed, ap (λ r. r.0) probed)
        (
          late,
          reached-Spaced (record b { state = open_circuit; gauge = 1; opened_at = end }) cs refl,
        )
]

-- When the cooldown is over the next call runs as the probe, and its verdict alone decides: success
-- closes the circuit with no failure counted, a failure starts a new cooldown at its end, and a
-- cancelled probe leaves the old cooldown, so that the next call probes again.
supervise-probe :
    (b : Breaker) (start end : Time) (v : Verdict)
    → b.state ≡ open_circuit
    → b.opened_at +ℤ breaker_cooldown ≤ℤ start
    → ((supervise start end v b).1 ≡ some v)
      × (((supervise start end v b).0.state ≡ closed) ↔ (v ≡ success))
      × (v ≡ success → (supervise start end v b).0.failures ≡ 0)
      × (v ≡ failure → (supervise start end v b).0.opened_at ≡ end)
      × (v ≡ cancelled
          → (later : Time) → start ≤ℤ later
          → (admit later (supervise start end v b).0).1 ≡ true)
unfolding supervise
supervise-probe b start end success h late =
    let due = not_soon b start late in
    (ground (arith, due), ground (arith, due), ground (arith, due), λ e. cc, λ e. cc)
supervise-probe b start end failure h late =
    let due = not_soon b start late in
    (ground (arith, due), ground (arith, due), λ e. cc, ground (arith, due), λ e. cc)
supervise-probe b start end cancelled h late =
    let due = not_soon b start late in
    (
      ground (arith, due),
      ground (arith, due),
      λ e. cc,
      λ e. cc,
      λ e u le. ground (arith, due, not_soon b u),
    )
