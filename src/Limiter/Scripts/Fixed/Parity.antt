-- ===== src/Limiter/Scripts/Fixed/Parity.antt =====
-- internal/limiter/scripts/fixed_window.lua and fixed_window.go: one algorithm, where their grids
-- agree.
use native.Mathlib.Nat.{mod-le, mod-lt}
use turnike.Common.{
  pos, eq_ℤ, leb, ltb, ℕ, ◌*◌, ◌%◌, ◌≤◌, ◌<◌, Bool, true, false, none, some, List, [], ◌∷◌,
  Pairwise, ◌≡◌, refl, ap, ap₂, All, arith, if◌then◌else◌, Bool-cases, inl, inr, floor_to, Result,
  ok,
}
use turnike.Config.{Limit, algo_fixed_window}
use turnike.Limiter.{Decision}
use turnike.Limiter.FixedWindow.{FixedWindow, empty, decide, step}
use turnike.Limiter.Redis.{RedisError, decision_from_reply}
use turnike.Limiter.Scripts.{values}
use turnike.Limiter.Scripts.Fixed.{Stored, adopt, conclude, script}
use turnike.Limiter.Scripts.Fixed.Quota.{Call, found, Over, Kept}
use turnike.Limiter.Scripts.Fixed.Grid.{truncate-at, floor_to_mono}
use turnike.Limiter.Scripts.Units.{
  epoch_us, at, remaining_eq, remaining_next, reset_eq, retry_eq, ltb_eq,
}

abbrev pub limit_of : ℕ → ℕ → Limit
limit_of rate window = record {
  algorithm = algo_fixed_window;
  rate = pos rate;
  burst = pos 0;
  window = pos (window * 1000);
}

-- What the two keep at a call in the window that begins at `ws`.
Fits : ℕ → Stored → FixedWindow → Type 0
Fits ws none b = eq_ℤ (at ws) b.window_start ≡ false
Fits ws (some (sws, count)) b = (sws ≤ ws) × (b ≡ record { window_start = at sws; count = count })

-- And after it.
Alike : ℕ → Stored → FixedWindow → Type 0
Alike ws none b = ⊥
Alike ws (some (sws, count)) b = (sws ≡ ws) × (b ≡ record { window_start = at ws; count = count })

-- Both have the one count for the window.
Counts : ℕ → ℕ → Stored → FixedWindow → Type 0
Counts ws seen st b =
    (adopt ws st ≡ (ws, seen))
    × ((if eq_ℤ (at ws) b.window_start then b else record { window_start = at ws; count = 0 })
        ≡ record { window_start = at ws; count = seen })
    × ((0 < seen) → st ≡ some (ws, seen))

counts : (ws : ℕ) (st : Stored) (b : FixedWindow) → Fits ws st b → (seen : ℕ) × Counts ws seen st b
unfolding Fits Counts
counts ws none b h = (0, (refl, rw h refl, λ p. absurd (omega (arith, p))))
counts ws (some (sws, count)) b (le, e) = elim (Bool-cases (leb ws sws)) [
  | inl same ↦
      let eq : sws ≡ ws = ground (arith, le, same) in
      (count, (rw (same, eq) refl, rw (e, eq) (ground arith), λ p. rw eq refl))
  | inr newer ↦ (0, (rw newer refl, rw e (ground (arith, newer)), λ p. absurd (omega (arith, p))))
]

-- From one count the two decide alike.
conclude-parity :
    (rate w now ws seen : ℕ) (st : Stored)
    → 0 < rate
    → ((0 < seen) → st ≡ some (ws, seen))
    → (decision_from_reply (values (conclude rate w now st (ws, seen)).1) (pos rate)
        ≡ ok (decide (limit_of rate w) (at now) (record { window_start = at ws; count = seen })).1)
      × Alike ws
          (conclude rate w now st (ws, seen)).0
          (decide (limit_of rate w) (at now) (record { window_start = at ws; count = seen })).0
unfolding decision_from_reply decide Alike
conclude-parity rate w now ws seen st p stored = elim (Bool-cases (ltb seen rate)) [
  | inl free ↦
      rw (ltb_eq seen rate, free)
        (
          rw (remaining_next rate seen, reset_eq ws w) refl,
          (refl, ap (λ n. record { window_start = at ws; count = n }) (omega arith)),
        )
  | inr full ↦
      rw (ltb_eq seen rate, full, stored (ground (arith, full, p)))
        (rw (remaining_eq rate seen, reset_eq ws w, retry_eq ws w now) refl, (refl, refl))
]

step-parity :
    (rate w now : ℕ) (st : Stored) (b : FixedWindow)
    → 0 < rate
    → 0 < w
    → epoch_us % w ≡ 0
    → Fits (floor_to now w) st b
    → (decision_from_reply (values (script rate w now st).1) (pos rate)
        ≡ ok (step (limit_of rate w) (at now) b).1)
      × Alike (floor_to now w) (script rate w now st).0 (step (limit_of rate w) (at now) b).0
unfolding script step Counts
step-parity rate w now st b p q h fits =
    let (seen, (adopted, rolled, stored)) = counts (floor_to now w) st b fits in
    rw (truncate-at now w q h, adopted, rolled)
      (conclude-parity rate w now (floor_to now w) seen st p stored)

-- The call after one at `n`.
next-Fits :
    (w n now : ℕ) (expired : Bool) (st : Stored) (b : FixedWindow)
    → 0 < w
    → n ≤ now
    → Over w now expired st
    → Alike (floor_to n w) st b
    → Fits (floor_to now w) (found expired st) b
unfolding Fits Alike Over
next-Fits w n now false (some (ws, count)) b p le over (e, alike) =
    (rw e (floor_to_mono n now w p le), rw e alike)
next-Fits w n now true (some (ws, count)) b p le over (e, alike) =
    rw alike (ground (arith, over, e, mod-lt now p, mod-le now w))
next-Fits w n now expired none b p le over alike = absurd alike

first-Fits : (w now : ℕ) (expired : Bool) → Fits (floor_to now w) (found expired none) empty
unfolding Fits
first-Fits w now false = ground arith
first-Fits w now true = ground arith

-- What the calls are answered: by redis, and by one bucket of the memory backend.
unfoldable pub scripted : (rate window : ℕ) → Stored → List Call → List (Result RedisError Decision)
scripted rate w st [] = []
scripted rate w st ((now, expired) ∷ cs) =
    let out = script rate w now (found expired st) in
    let rest = scripted rate w out.0 cs in decision_from_reply (values out.1) (pos rate) ∷ rest

unfoldable pub in_memory : Limit → FixedWindow → List Call → List (Result RedisError Decision)
in_memory l b [] = []
in_memory l b ((now, expired) ∷ cs) =
    let out = step l (at now) b in let rest = in_memory l out.0 cs in ok out.1 ∷ rest

abbrev pub InOrder : List Call → Type 0
InOrder cs = Pairwise (λ c d. c.0 ≤ d.0) cs

parity_from :
    (rate w n : ℕ) (st : Stored) (b : FixedWindow) (cs : List Call)
    → 0 < rate
    → 0 < w
    → epoch_us % w ≡ 0
    → All (λ d. n ≤ d.0) cs
    → InOrder cs
    → Kept rate w st cs
    → Alike (floor_to n w) st b
    → scripted rate w st cs ≡ in_memory (limit_of rate w) b cs
unfolding scripted in_memory Kept
parity_from rate w n st b [] p q h later order kept alike = refl
parity_from rate w n st b ((now, expired) ∷ cs) p q h (le, _) (later, order) (over, kept) alike =
    let fits = next-Fits w n now expired st b q le over alike in
    let (same, after) = step-parity rate w now (found expired st) b p q h fits in
    ap₂ (λ x xs. x ∷ xs) same
      (parity_from rate w now (script rate w now (found expired st)).0
        (step (limit_of rate w) (at now) b).0 cs p q h later order kept after)

-- With a positive rate, a positive window that divides the time from Go's zero time to the Unix
-- epoch, the clock in order and a key that is there until its window is over, redis answers every
-- call as a new bucket of the memory backend would: the same decisions, with the same remainders,
-- resets and waits.
pub scripted-in_memory :
    (rate w : ℕ) (cs : List Call)
    → 0 < rate
    → 0 < w
    → epoch_us % w ≡ 0
    → InOrder cs
    → Kept rate w none cs
    → scripted rate w none cs ≡ in_memory (limit_of rate w) empty cs
unfolding scripted in_memory Kept Fits
scripted-in_memory rate w [] p q h order kept = refl
scripted-in_memory rate w ((now, expired) ∷ cs) p q h (later, order) (over, kept) =
    let (same, after) =
      step-parity rate w now (found expired none) empty p q h (first-Fits w now expired) in
    ap₂ (λ x xs. x ∷ xs) same
      (parity_from rate w now (script rate w now (found expired none)).0
        (step (limit_of rate w) (at now) empty).0 cs p q h later order kept after)
