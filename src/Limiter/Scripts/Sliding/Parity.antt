-- ===== src/Limiter/Scripts/Sliding/Parity.antt =====
-- internal/limiter/scripts/sliding_window.lua and sliding_window.go: a call of each, side
-- by side.
use mathlib.Core.List.{map}
use mathlib.Core.Option
use turnike.Common.{
  ℤ, pos, sub_ℕ, ◌+ℤ◌, ◌-ℤ◌, ltb_ℤ, ltb, ℕ, suc, ◌+◌, ◌-◌, ◌*◌, ◌≤◌, ◌<◌, Bool, true, false, Option,
  some, List, [], ◌∷◌, ◌++◌, keep, length, length-append, last?, head?, All, ◌≡◌, refl, sym, ap,
  arith, if◌then◌else◌, Bool-cases, inl, inr, ok,
}
use turnike.Config.{Limit, Duration, algo_sliding_window}
use turnike.Limiter.{Decision}
use turnike.Limiter.SlidingWindow.{
  SlidingWindow, is_live, evict, has_room, append_if, clear_at, retry_after, decide, step,
}
use turnike.Limiter.Redis.{decision_from_reply, epoch, times_1000}
use turnike.Limiter.Scripts.{Reply, values}
use turnike.Limiter.Scripts.Units.{at, remaining_eq, reset_eq, retry_eq, ltb_eq}
use turnike.Limiter.Scripts.Zset.{place}
use turnike.Limiter.Scripts.Sliding.{end_of, wait_for}

abbrev pub limit_of : ℕ → ℕ → Limit
limit_of rate window = record {
  algorithm = algo_sliding_window;
  rate = pos rate;
  burst = pos 0;
  window = pos (window * 1000);
}

is_live-at : (w now s : ℕ) → is_live (pos (w * 1000)) (at now) (at s) ≡ ltb_ℤ (sub_ℕ now w) (pos s)
unfolding ◌-ℤ◌
is_live-at w now s = ground arith

-- What is left of a log after the trim.
abbrev pub live_part : ℕ → ℕ → List ℕ → List ℕ
live_part w now ss = keep (λ s. ltb_ℤ (sub_ℕ now w) (pos s)) ss

-- The one log is evicted as the other is trimmed.
pub evict-map :
    (w now : ℕ) (ss : List ℕ)
    → evict (pos (w * 1000)) (at now) (map at ss) ≡ map at (live_part w now ss)
unfolding evict
evict-map w now [] = refl
evict-map w now (s ∷ ss) = elim (Bool-cases (ltb_ℤ (sub_ℕ now w) (pos s))) [
  | inl live ↦ rw (is_live-at w now s, live) (ap (λ ts. at s ∷ ts) (evict-map w now ss))
  | inr gone ↦ rw (is_live-at w now s, gone) (evict-map w now ss)
]

length-map : (ss : List ℕ) → length (map at ss) ≡ length ss
length-map [] = refl
length-map (s ∷ ss) = omega (arith, length-map ss)

pub has_room-map :
    (rate w : ℕ) (ss : List ℕ) → has_room (limit_of rate w) (map at ss) ≡ ltb (length ss) rate
has_room-map rate w ss = rw (length-map ss) (ltb_eq (length ss) rate)

pub place-last : (now : ℕ) (ss : List ℕ) → All (λ s. s ≤ now) ss → place now ss ≡ ss ++ now ∷ []
unfolding place
place-last now [] h = refl
place-last now (s ∷ ss) (p, h) = ground (arith, p, place-last now ss h)

map-append : (ss : List ℕ) (now : ℕ) → map at (ss ++ now ∷ []) ≡ map at ss ++ at now ∷ []
map-append [] now = refl
map-append (s ∷ ss) now = ap (λ ts. at s ∷ ts) (map-append ss now)

now_eq : (now : ℕ) → epoch +ℤ times_1000 (pos now) ≡ at now
unfolding ◌+ℤ◌ times_1000
now_eq now = ground arith

clear_eq :
    (rate w now : ℕ) (ss : List ℕ)
    → epoch +ℤ times_1000 (pos (end_of w now (last? ss)))
      ≡ clear_at (limit_of rate w) (at now) (last? (map at ss))
unfolding end_of
clear_eq rate w now [] = now_eq now
clear_eq rate w now (s ∷ []) = reset_eq s w
clear_eq rate w now (s ∷ u ∷ ss) = clear_eq rate w now (u ∷ ss)

-- From one log the two decide alike.
decided :
    (allowed : Bool) (rate w now count : ℕ) (log : List ℕ) (wait : ℤ) (wait' : Duration)
    → length log ≡ count
    → times_1000 wait ≡ wait'
    → decision_from_reply
        (values (record {
          allowed = allowed;
          remaining = rate - count;
          reset = end_of w now (last? log);
          retry = wait;
        }))
        (pos rate)
      ≡ ok (decide (limit_of rate w) (at now) allowed (map at log) wait').1
unfolding decision_from_reply
decided true rate w now count log wait wait' e r =
    rw (sym e, sym r, remaining_eq rate (length log), clear_eq rate w now log, length-map log) refl
decided false rate w now count log wait wait' e r =
    rw (sym e, sym r, remaining_eq rate (length log), clear_eq rate w now log, length-map log) refl

-- The reply for a log whose live part is `ks`.
abbrev pub reply : ℕ → ℕ → ℕ → List ℕ → Reply
reply rate w now ks =
    let allowed = ltb (length ks) rate in
    let log = if allowed then ks ++ now ∷ [] else ks in
    record {
      allowed = allowed;
      remaining = rate - (if allowed then suc (length ks) else length ks);
      reset = end_of w now (last? log);
      retry = if allowed then pos 0 else wait_for w now (head? log);
    }

-- The memory backend's answer for the same log.
abbrev pub answer : ℕ → ℕ → ℕ → List ℕ → Option (SlidingWindow × Decision)
answer rate w now ks =
    let l = limit_of rate w in
    let allowed = has_room l (map at ks) in
    let log = append_if allowed (at now) (map at ks) in
    Option.map (decide l (at now) allowed log) (retry_after l (at now) allowed log)

-- A full log has an oldest entry.
waits :
    (rate w now : ℕ) (ks : List ℕ)
    → 0 < rate
    → ltb (length ks) rate ≡ false
    → (d : Decision) × (decision_from_reply (values (reply rate w now ks)) (pos rate) ≡ ok d)
      × (answer rate w now ks
          ≡ some (
            record { timestamps = map at (if ltb (length ks) rate then ks ++ now ∷ [] else ks) },
            d,
          ))
unfolding retry_after wait_for
waits rate w now [] p full = absurd (ground (arith, p, full))
waits rate w now (k ∷ ks) p full = (
  (decide (limit_of rate w) (at now) false (map at (k ∷ ks))
      ((at k +ℤ pos (w * 1000)) -ℤ at now)).1,
  rw full (
      decided false rate w now (length (k ∷ ks)) (k ∷ ks) (sub_ℕ (k + w) now)
        ((at k +ℤ pos (w * 1000)) -ℤ at now) refl (retry_eq k w now)),
  rw (has_room-map rate w (k ∷ ks), full) refl,
)

pub reply-answer :
    (rate w now : ℕ) (ks : List ℕ)
    → 0 < rate
    → (d : Decision) × (decision_from_reply (values (reply rate w now ks)) (pos rate) ≡ ok d)
      × (answer rate w now ks
          ≡ some (
            record { timestamps = map at (if ltb (length ks) rate then ks ++ now ∷ [] else ks) },
            d,
          ))
reply-answer rate w now ks p = elim (Bool-cases (ltb (length ks) rate)) [
  | inl free ↦ (
    (decide (limit_of rate w) (at now) true (map at (ks ++ now ∷ [])) (pos 0)).1,
    rw free (
        decided true rate w now (suc (length ks)) (ks ++ now ∷ []) (pos 0) (pos 0)
          (omega (arith, length-append ks (now ∷ []))) (unfold times_1000 in refl)),
    rw (has_room-map rate w ks, free, sym (map-append ks now)) (unfold retry_after in refl),
  )
  | inr full ↦ waits rate w now ks p full
]

pub step-answer :
    (rate w now : ℕ) (ss : List ℕ) (b : SlidingWindow)
    → b.timestamps ≡ map at ss
    → step (limit_of rate w) (at now) b ≡ answer rate w now (live_part w now ss)
unfolding step
step-answer rate w now ss b e = rw (e, evict-map w now ss) refl
