-- ===== src/Limiter/Breaker.antt =====
-- internal/limiter/breaker.go. Logging is left out; the mutex makes each of admit and record one
-- step, and calls in flight between the two are the children's business.
pub mod Sequential
pub mod Concurrent
use turnike.Common.{
  ℤ, pos, ◌-ℤ◌, ltb_ℤ, leb, ℕ, suc, Bool, true, false, Option, none, some, if◌then◌else◌,
}
use turnike.Limiter.{Time}
use turnike.Config.{Duration}

abbrev pub breaker_failure_threshold : ℕ
breaker_failure_threshold = 5

-- One second.
abbrev pub breaker_cooldown : Duration
breaker_cooldown = pos 1000000000

pub data State : Type 0 where
  closed open_circuit half_open : State

-- The state constants, as the gauge exports them.
abbrev pub code : State → ℕ
code closed = 0
code open_circuit = 1
code half_open = 2

-- What a call of redis came to; `cancelled` is an error that `neutral` accepts.
pub data Verdict : Type 0 where
  success cancelled failure : Verdict

-- `gauge` is the value last set on the hook.
pub record Breaker : Type 0 where
  pub state : State
  pub failures : ℕ
  pub opened_at : Time
  pub gauge : ℕ

abbrev pub new_breaker : Breaker
new_breaker = record { state = closed; failures = 0; opened_at = pos 0; gauge = code closed }

abbrev pub set_state : State → Breaker → Breaker
set_state s b = record b { state = s; gauge = code s }

admit_in : State → Time → Breaker → Breaker × Bool
admit_in open_circuit now b =
    if ltb_ℤ (now -ℤ b.opened_at) breaker_cooldown
    then (b, false)
    else (set_state half_open b, true)
admit_in half_open now b = (b, false)
admit_in closed now b = (b, true)

-- The flag is false where the source returns errBreakerOpen.
unfoldable pub admit : Time → Breaker → Breaker × Bool
unfolding admit_in
admit now b = admit_in b.state now b

record_in : State → Verdict → Time → Breaker → Breaker
record_in closed success now b = record b { failures = 0 }
record_in closed cancelled now b = b
record_in closed failure now b =
    let failures = suc b.failures in
    if leb breaker_failure_threshold failures
    then record (set_state open_circuit b) { failures = failures; opened_at = now }
    else record b { failures = failures }
record_in half_open success now b = record (set_state closed b) { failures = 0 }
record_in half_open cancelled now b = set_state open_circuit b
record_in half_open failure now b = record (set_state open_circuit b) { opened_at = now }
record_in open_circuit v now b = b

unfoldable pub record_verdict : Verdict → Time → Breaker → Breaker
unfolding record_in
record_verdict v now b = record_in b.state v now b

-- `do` with no other call in between: `fn` is entered at `start` if it runs at all, and returns `v`
-- at `end`. `none` is errBreakerOpen.
unfoldable pub supervise : Time → Time → Verdict → Breaker → Breaker × Option Verdict
unfolding admit record_verdict
supervise start end v b =
    let (b', admitted) = admit start b in
    if admitted then (record_verdict v end b', some v) else (b', none)
