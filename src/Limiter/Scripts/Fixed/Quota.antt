-- ===== src/Limiter/Scripts/Fixed/Quota.antt =====
-- internal/limiter/scripts/fixed_window.lua: the admissions of a window, whatever TIME reads.
use turnike.Common.{
  ltb, ◌==◌, ℕ, ◌+◌, ◌-◌, ◌≤◌, ◌<◌, Bool, true, false, ◌&&◌, none, some, List, [], ◌∷◌, keep,
  length, arith, if◌then◌else◌,
}
use turnike.Limiter.Scripts.Fixed.{Stored, script}

-- A call: what TIME reads, and whether the key has expired since the last one.
abbrev pub Call : Type 0
Call = ℕ × Bool

abbrev pub found : Bool → Stored → Stored
found expired st = if expired then none else st

-- The ends of the windows that the calls, in order, are admitted to.
unfoldable pub ends : (rate window : ℕ) → Stored → List Call → List ℕ
ends rate window st [] = []
ends rate window st ((now, expired) ∷ cs) =
    let out = script rate window now (found expired st) in
    let rest = ends rate window out.0 cs in if out.1.allowed then out.1.reset ∷ rest else rest

-- The window of a key that has expired is over.
unfoldable pub Over : ℕ → ℕ → Bool → Stored → Type 0
Over window now false st = Unit
Over window now true none = Unit
Over window now true (some (ws, count)) = ws + window ≤ now

unfoldable pub Kept : (rate window : ℕ) → Stored → List Call → Type 0
unfolding script
Kept rate window st [] = Unit
Kept rate window st ((now, expired) ∷ cs) =
    Over window now expired st × Kept rate window (script rate window now (found expired st)).0 cs

-- How many more admissions the window that ends at `b` has room for.
room : (rate window b : ℕ) → Stored → ℕ
room rate window b none = rate
room rate window b (some (ws, count)) =
    if ltb b (ws + window) then 0 else if b == ws + window then rate - count else rate

script-room :
    (rate window b now : ℕ) (expired : Bool) (st : Stored)
    → 0 < window
    → Over window now expired st
    → let out = script rate window now (found expired st) in
      (if out.1.allowed && (b == out.1.reset) then 1 else 0) + room rate window b out.0
      ≤ room rate window b st
unfolding script room Over
script-room rate window b now false none p h = ground arith
script-room rate window b now false (some (ws, count)) p h = ground arith
script-room rate window b now true none p h = ground arith
script-room rate window b now true (some (ws, count)) p h = ground arith

ends-room :
    (rate window b : ℕ) (st : Stored) (cs : List Call)
    → 0 < window
    → Kept rate window st cs
    → length (keep (λ e. b == e) (ends rate window st cs)) ≤ room rate window b st
unfolding ends Kept
ends-room rate window b st [] p h = ground arith
ends-room rate window b st ((now, expired) ∷ cs) p (over, kept) =
    let ih = ends-room rate window b (script rate window now (found expired st)).0 cs p kept in
    ground (arith, script-room rate window b now expired st p over, ih)

-- With a positive window, whatever the clock reads, stepped back or not, a key that is there until its
-- window is over admits at most `rate` of the calls in any one window.
pub ends-quota :
    (rate window b : ℕ) (cs : List Call)
    → 0 < window
    → Kept rate window none cs
    → length (keep (λ e. b == e) (ends rate window none cs)) ≤ rate
unfolding room
ends-quota rate window b cs p h = ends-room rate window b none cs p h
