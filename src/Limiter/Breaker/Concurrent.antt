-- ===== src/Limiter/Breaker/Concurrent.antt =====
-- internal/limiter/breaker.go: calls of redis in flight at once: every order in which they enter
-- and return.
use turnike.Common.{
  ◌+ℤ◌, +ℤ_parts, -ℤ_parts, subst, ◌≤ℤ◌, ℕ, suc, ◌<◌, true, if◌then◌else◌, ◌≡◌, ◌≢◌, refl, arith,
}
use turnike.Limiter.{Time}
use turnike.Limiter.Breaker.{
  State, set_state, closed, open_circuit, half_open, code, Verdict, cancelled, Breaker, new_breaker,
  breaker_failure_threshold, breaker_cooldown, admit, record_verdict,
}

-- The breaker with the calls that it let through and that have not returned: those admitted by a
-- closed circuit, and the probes.
pub record System : Type 0 where
  pub breaker : Breaker
  pub calls : ℕ
  pub probes : ℕ

abbrev pub start : System
start = record { breaker = new_breaker; calls = 0; probes = 0 }

-- A call enters, or is turned away.
abbrev pub enter : State → Time → System → System
enter closed now s = record s { breaker = (admit now s.breaker).0; calls = suc s.calls }
enter open_circuit now s = record s {
  breaker = (admit now s.breaker).0;
  probes = if (admit now s.breaker).1 then suc s.probes else s.probes;
}
enter half_open now s = record s { breaker = (admit now s.breaker).0 }

pub data Step : System → System → Type 0 where
  enters : (s : System) (now : Time) → Step s (enter s.breaker.state now s)
  call_returns :
      (s : System) (v : Verdict) (now : Time) (n : ℕ)
      → s.calls ≡ suc n
      → Step s (record s { breaker = record_verdict v now s.breaker; calls = n })
  probe_returns :
      (s : System) (v : Verdict) (now : Time) (n : ℕ)
      → s.probes ≡ suc n
      → Step s (record s { breaker = record_verdict v now s.breaker; probes = n })

pub data Reach (s : System) : System → Type 0 where
  here : Reach s s
  next : {t u : System} → Reach s t → Step t u → Reach s u

pub record IsSane (s : System) : Type 0 where
  pub gauge : s.breaker.gauge ≡ code s.breaker.state
  pub counting : s.breaker.state ≡ closed → s.breaker.failures < breaker_failure_threshold
  pub probing : s.breaker.state ≡ half_open → 0 < s.probes

record_leaves :
    (v : Verdict) (now : Time) (b : Breaker) → (record_verdict v now b).state ≢ half_open
unfolding record_verdict
record_leaves v now b = ground arith

enter-IsSane :
    (st : State) (now : Time) (s : System)
    → s.breaker.state ≡ st
    → IsSane s
    → IsSane (enter st now s)
unfolding admit
enter-IsSane closed now s e v = ground (arith, v)
enter-IsSane half_open now s e v = ground (arith, v)
enter-IsSane open_circuit now s e v = ground (arith, v)

Step-IsSane : {s t : System} → Step s t → IsSane s → IsSane t
unfolding record_verdict
Step-IsSane (enters s now) v = enter-IsSane s.breaker.state now s refl v
Step-IsSane (call_returns s w now n e) v = ground (arith, v)
Step-IsSane (probe_returns s w now n e) v = ground (arith, v)

-- However calls interleave from the start on: the gauge shows the state, a closed circuit has
-- counted fewer failures than the threshold, and a half-open circuit has a probe in flight.
pub Reach-IsSane : {s : System} → Reach start s → IsSane s
Reach-IsSane here = record { gauge = refl; counting = λ e. omega arith; probing = λ e. absurd (cc) }
Reach-IsSane (next r st) = Step-IsSane st (Reach-IsSane r)

late_admit :
    (b : Breaker) (now : Time)
    → b.state ≡ open_circuit
    → b.opened_at +ℤ breaker_cooldown ≤ℤ now
    → admit now b ≡ (set_state half_open b, true)
unfolding admit
late_admit b now h late =
    ground (arith, +ℤ_parts b.opened_at breaker_cooldown, -ℤ_parts now b.opened_at)

-- In a half-open circuit with a call in flight that a closed one admitted, at a time when the old
-- cooldown is over, that call and the next caller can lead to a half-open circuit with one probe
-- more in flight.
pub second_probe :
    (s : System) (now : Time) (n : ℕ)
    → s.breaker.state ≡ half_open
    → s.calls ≡ suc n
    → s.breaker.opened_at +ℤ breaker_cooldown ≤ℤ now
    → (u : System) × Reach s u × (u.breaker.state ≡ half_open) × (u.probes ≡ suc s.probes)
unfolding record_verdict
second_probe s now n h e late =
    let b = set_state open_circuit s.breaker in
    let mid = record s { breaker = b; calls = n } in
    (
      enter open_circuit now mid,
      next
          (next here (
            subst (λ c. Step s (record s { breaker = c; calls = n })) (ground arith)
              (call_returns s cancelled now n e)))
          (enters mid now),
      ground (arith, late_admit b now refl late),
      ground (arith, late_admit b now refl late),
    )
