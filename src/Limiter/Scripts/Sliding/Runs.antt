-- ===== src/Limiter/Scripts/Sliding/Runs.antt =====
-- internal/limiter/scripts/sliding_window.lua and sliding_window.go: what the calls of one key are
-- answered.
use mathlib.Core.List.{map}
use turnike.Common.{
  pos, sub_ℕ, ltb_ℤ, ltb, ℕ, ◌+◌, ◌≤◌, ◌<◌, Bool, true, false, none, some, List, [], ◌∷◌, ◌++◌,
  length, All, All-keep, All-append, Text, ◌≡◌, refl, sym, ap, ap₂, ◌∙◌, arith, if◌then◌else◌,
  Bool-cases, inl, inr, Result, ok,
}
use turnike.Config.{Limit}
use turnike.Limiter.{Decision}
use turnike.Limiter.SlidingWindow.{SlidingWindow, empty, step}
use turnike.Limiter.Redis.{RedisError, decision_from_reply}
use turnike.Limiter.Scripts.{values}
use turnike.Limiter.Scripts.Units.{at}
use turnike.Limiter.Scripts.Zset.{Zset, place}
use turnike.Limiter.Scripts.Sliding.{trimmed, script}
use turnike.Limiter.Scripts.Sliding.Cover.{Call}
use turnike.Limiter.Scripts.Sliding.Quota.{found, Fresh}
use turnike.Limiter.Scripts.Sliding.Parity.{
  limit_of, live_part, reply, reply-answer, place-last, step-answer,
}

-- Calls in order by the clock, where a key expires no sooner than a window after the last call.
unfoldable pub InOrder : ℕ → Call → List Call → Type 0
InOrder w last [] = Unit
InOrder w last (c ∷ cs) =
    (last.clock ≤ c.clock) × (c.expired ≡ true → last.clock + w ≤ c.clock) × InOrder w c cs

older : (n m : ℕ) (ss : List ℕ) → n ≤ m → All (λ s. s ≤ n) ss → All (λ s. s ≤ m) ss
older n m [] le h = h
older n m (s ∷ ss) le (p, h) = (omega (arith, p, le), older n m ss le h)

none-live :
    (w n now : ℕ) (ss : List ℕ) → n + w ≤ now → All (λ s. s ≤ n) ss → live_part w now ss ≡ []
none-live w n now [] le h = refl
none-live w n now (s ∷ ss) le (p, h) = ground (arith, p, none-live w n now ss le h)

log-old :
    (b : Bool) (now : ℕ) (ks : List ℕ)
    → All (λ s. s ≤ now) ks
    → All (λ s. s ≤ now) (if b then ks ++ now ∷ [] else ks)
log-old true now ks h = All-append (λ s. s ≤ now) ks (now ∷ []) h (omega arith, tt)
log-old false now ks h = h

-- What one bucket of the memory backend answers; a panic ends the run.
unfoldable pub in_memory : Limit → SlidingWindow → List Call → List (Result RedisError Decision)
in_memory l b [] = []
in_memory l b (c ∷ cs) = elim (step l (at c.clock) b) [
  | none ↦ []
  | some (b', d) ↦ let rest = in_memory l b' cs in ok d ∷ rest
]

in_memory-step :
    (l : Limit) (b b' : SlidingWindow) (c : Call) (cs : List Call) (d : Decision)
    → step l (at c.clock) b ≡ some (b', d)
    → in_memory l b (c ∷ cs) ≡ ok d ∷ in_memory l b' cs
unfolding in_memory
in_memory-step l b b' c cs d e = rw (in_memory, e) refl

module _ (zs : Zset) (rate w : ℕ) where
  open zs use {
    Z, absent, add, card, has, oldest, newest, scores, scores-absent, scores-trim, scores-add,
    card-scores, oldest-scores, newest-scores,
  }

  -- What redis answers.
  unfoldable pub scripted : Z → List Call → List (Result RedisError Decision)
  scripted z [] = []
  scripted z (c ∷ cs) =
      let out = script zs rate w c.nonce c.clock (found zs rate w c z) in
      let rest = scripted out.0 cs in decision_from_reply (values out.1) (pos rate) ∷ rest

  -- The script replies, and keeps, what its live part asks for.
  script-reply :
      (nonce : Text) (now : ℕ) (z : Z) (ks : List ℕ)
      → has (now, nonce) (trimmed zs w now z) ≡ false
      → live_part w now (scores z) ≡ ks
      → All (λ s. s ≤ now) ks
      → ((script zs rate w nonce now z).1 ≡ reply rate w now ks)
        × (scores (script zs rate w nonce now z).0
            ≡ (if ltb (length ks) rate then ks ++ now ∷ [] else ks))
  unfolding script
  script-reply nonce now z ks new live old =
      let kept = trimmed zs w now z in
      let kept_eq : scores kept ≡ ks = scores-trim (sub_ℕ now w) z ∙ live in
      let card_eq : card kept ≡ length ks = card-scores kept ∙ ap length kept_eq in
      let add_eq : scores (add (now, nonce) kept) ≡ ks ++ now ∷ [] =
        scores-add (now, nonce) kept new ∙ (ap (place now) kept_eq ∙ place-last now ks old) in
      elim (Bool-cases (ltb (length ks) rate)) [
        | inl free ↦
            rw (card_eq, free) (rw (newest-scores (add (now, nonce) kept), add_eq) (refl, refl))
        | inr full ↦
            rw (card_eq, full) (rw (newest-scores kept, oldest-scores kept, kept_eq) (refl, refl))
      ]

  -- An expired key and one whose entries are all a window old have the same live part, none.
  found-live :
      (last c : Call) (z : Z)
      → last.clock ≤ c.clock
      → (c.expired ≡ true → last.clock + w ≤ c.clock)
      → All (λ s. s ≤ last.clock) (scores z)
      → live_part w c.clock (scores (found zs rate w c z)) ≡ live_part w c.clock (scores z)
  unfolding found
  found-live last c z order over old = elim (Bool-cases c.expired) [
    | inl gone ↦
        rw (gone, scores-absent, none-live w last.clock c.clock (scores z) (over gone) old) refl
    | inr there ↦ rw there refl
  ]

  scripted-from :
      (last : Call) (z : Z) (b : SlidingWindow) (cs : List Call)
      → 0 < rate
      → InOrder w last cs
      → Fresh zs rate w z cs
      → b.timestamps ≡ map at (scores z)
      → All (λ s. s ≤ last.clock) (scores z)
      → scripted z cs ≡ in_memory (limit_of rate w) b cs
  unfolding scripted InOrder Fresh
  scripted-from last z b [] p order fresh same old = unfold in_memory in refl
  scripted-from last z b (c ∷ cs) p (le, over, order) (new, fresh) same old =
      let ks = live_part w c.clock (scores z) in
      let old_now : All (λ s. s ≤ c.clock) ks =
        All-keep (λ s. s ≤ c.clock) (λ s. ltb_ℤ (sub_ℕ c.clock w) (pos s)) (scores z)
          (older last.clock c.clock (scores z) le old) in
      let z' = found zs rate w c z in
      let live = found-live last c z le over old in
      let (replied, log) = script-reply c.nonce c.clock z' ks new live old_now in
      let (d, decoded, answered) = reply-answer rate w c.clock ks p in
      let b' : SlidingWindow = record {
        timestamps = map at (if ltb (length ks) rate then ks ++ c.clock ∷ [] else ks);
      } in
      let stepped = step-answer rate w c.clock (scores z) b same ∙ answered in
      (ap₂ (λ x xs. x ∷ xs) (ap (λ r. decision_from_reply (values r) (pos rate)) replied ∙ decoded)
          (scripted-from c (script zs rate w c.nonce c.clock z').0 b' cs p order fresh
            (ap (map at) (sym log)) (rw log (log-old (ltb (length ks) rate) c.clock ks old_now)))
        ∙ sym (in_memory-step (limit_of rate w) b b' c cs d stepped))

  -- With a positive rate, the clock in order, no nonce used twice, and a key that stays for a
  -- window after each call, redis answers every call as a new bucket of the memory backend does,
  -- which never panics: the same decisions, with the same remainders, resets and waits.
  pub scripted-in_memory_log :
      (start : Call) (cs : List Call)
      → 0 < rate
      → InOrder w start cs
      → Fresh zs rate w absent cs
      → scripted absent cs ≡ in_memory (limit_of rate w) empty cs
  scripted-in_memory_log start cs p order fresh =
      scripted-from start absent empty cs p order fresh (rw scores-absent refl)
        (rw scores-absent tt)
