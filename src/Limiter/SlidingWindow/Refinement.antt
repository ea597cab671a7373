-- ===== src/Limiter/SlidingWindow/Refinement.antt =====
-- internal/limiter/sliding_window.go against its specification: a bucket that remembers every
-- request it ever admitted, and counts those less than a window old.

use turnike.Common.{
  ℕ, suc, ℤ, ltb_ℤ, leb_ℤ, length, +ℤ_parts, pos, ◌+ℤ◌, ◌-ℤ◌, ◌<ℤ◌, ◌≤ℤ◌, -ℤ_parts, Bool, true,
  false, some, List, [], ◌∷◌, ◌++◌, keep, keep-append, All, Pairwise, if◌then◌else◌, ◌≡◌, refl,
  arith, Bool-cases, inl, inr,
}
use turnike.Config.{Limit, Duration}
use turnike.Limiter.{Time, Decision}
use turnike.Limiter.SlidingWindow.{
  SlidingWindow, empty, is_live, evict, has_room, append_if, retry_after, decide, step, admissions,
  recent, fits, ideal,
}

recent_lem :
    (w : Duration) (now : Time) (xs : List Time) → recent w now xs ≡ length (evict w now xs)
unfolding recent evict
recent_lem w now [] = refl
recent_lem w now (x ∷ xs) = ground (arith, recent_lem w now xs, +ℤ_parts x w, -ℤ_parts now w)

-- The code's test for room is the specification's.
pub fits-eq-has_room :
    (l : Limit) (now : Time) (history : List Time)
    → fits l now history ≡ has_room l (evict l.window now history)
fits-eq-has_room l now history =
    rw (recent_lem l.window now history) (next_le (length (evict l.window now history)) l.rate)
  where
    next_le : (n : ℕ) (r : ℤ) → leb_ℤ (pos (suc n)) r ≡ ltb_ℤ (pos n) r
    next_le n r = ground arith

-- The log after one request.
abbrev pub log_after : Limit → Time → List Time → List Time
log_after l now log = append_if (has_room l (evict l.window now log)) now (evict l.window now log)

retry_after-total :
    (l : Limit) (now : Time) (kept : List Time)
    → pos 0 <ℤ l.rate
    → (r : Duration) × (retry_after l now (has_room l kept) (append_if (has_room l kept) now kept)
        ≡ some r)
unfolding retry_after
retry_after-total l now [] p = (pos 0, ground arith)
retry_after-total l now (x ∷ xs) p = elim (Bool-cases (has_room l (x ∷ xs))) [
  | inl room ↦ (pos 0, rw room)
  | inr full ↦ ((x +ℤ l.window) -ℤ now, rw full)
]

-- With a positive rate no request panics, in any state; the log becomes the live part, with the new
-- request at the end if there was room, and the request is admitted exactly if there was.
pub step-total :
    (l : Limit) (now : Time) (b : SlidingWindow)
    → pos 0 <ℤ l.rate
    → (d : Decision) × (step l now b
        ≡ some (record { timestamps = log_after l now b.timestamps }, d))
      × (d.allowed ≡ has_room l (evict l.window now b.timestamps))
unfolding step
step-total l now b p =
    let (r, e) = retry_after-total l now (evict l.window now b.timestamps) p in
    let kept = evict l.window now b.timestamps in
    ((decide l now (has_room l kept) (append_if (has_room l kept) now kept) r).1, rw e, refl)

keep-keep :
    (p q : Time → Bool) (xs : List Time)
    → ((x : Time) → p x ≡ true → q x ≡ true)
    → keep p (keep q xs) ≡ keep p xs
keep-keep p q [] h = refl
keep-keep p q (x ∷ xs) h = ground (arith, h x, keep-keep p q xs h)

-- What counts at a later instant counted before.
evict-evict :
    (w : Duration) (s t : Time) (xs : List Time) → s ≤ℤ t → evict w t (evict w s xs) ≡ evict w t xs
unfolding evict
evict-evict w s t xs h = keep-keep (is_live w t) (is_live w s) xs (λ x. is_live-mono x)
  where
    is_live-mono : (x : Time) → is_live w t x ≡ true → is_live w s x ≡ true
    is_live-mono x k = ground (arith, -ℤ_parts s w, -ℤ_parts t w)

-- The log agrees with the history as far as can matter from `now` on.
abbrev Agree : Limit → Time → List Time → List Time → Type 0
Agree l now log history = (t : Time) → now ≤ℤ t → evict l.window t log ≡ evict l.window t history

evict-append_if :
    (w : Duration) (t : Time) (room : Bool) (x : Time) (xs : List Time)
    → evict w t (append_if room x xs)
      ≡ (if room then evict w t xs ++ evict w t (x ∷ []) else evict w t xs)
unfolding evict
evict-append_if w t true x xs = keep-append (is_live w t) xs (x ∷ [])
evict-append_if w t false x xs = refl

log_after-Agree :
    (l : Limit) (now : Time) (log history : List Time)
    → Agree l now log history
    → Agree l now
        (log_after l now log)
        (append_if (has_room l (evict l.window now history)) now history)
log_after-Agree l now log history h t le = rw (
  h now (omega arith),
  evict-append_if l.window t (has_room l (evict l.window now history)) now history,
  evict-append_if l.window t (has_room l (evict l.window now history)) now
      (evict l.window now history),
  evict-evict l.window now t history le,
)

Agree-mono :
    (l : Limit) (s t : Time) (log history : List Time)
    → s ≤ℤ t
    → Agree l s log history
    → Agree l t log history
Agree-mono l s t log history le h u k = h u (omega arith)

admissions-eq_from :
    (l : Limit) (now : Time) (log history : List Time) (ts : List Time)
    → pos 0 <ℤ l.rate
    → Agree l now log history
    → All (λ t. now ≤ℤ t) ts
    → Pairwise (λ s t. s ≤ℤ t) ts
    → admissions l (record { timestamps = log }) ts ≡ ideal l history ts
unfolding admissions ideal
admissions-eq_from l now log history [] p h a s = refl
admissions-eq_from l now log history (t ∷ ts) p h (le, a) (s, ss) =
    let (d, e, allowed) = step-total l t (record { timestamps = log }) p in
    let later = Agree-mono l now t log history le h in
    let rest =
      admissions-eq_from l t (log_after l t log)
        (append_if (has_room l (evict l.window t history)) t history) ts p
        (log_after-Agree l t log history later) s ss in
    elim (Bool-cases (has_room l (evict l.window t history))) [
      | inl room ↦
          let after = rw room at rest in
          rw (e, admissions, allowed, after, h t le, room, fits-eq-has_room l t history, room) refl
      | inr full ↦
          let after = rw full at rest in
          rw (e, admissions, allowed, after, h t le, full, fits-eq-has_room l t history, full) refl
    ]

-- With a positive rate and time never going back, a new bucket with its bounded log admits exactly
-- the requests that the specification admits, which never forgets one.
pub admissions-eq-ideal :
    (l : Limit) (ts : List Time)
    → pos 0 <ℤ l.rate
    → Pairwise (λ s t. s ≤ℤ t) ts
    → admissions l empty ts ≡ ideal l [] ts
admissions-eq-ideal l [] p s = unfold admissions ideal in refl
admissions-eq-ideal l (t ∷ ts) p (s, ss) =
    admissions-eq_from l t [] [] (t ∷ ts) p (λ u k. refl) (omega arith, s) (s, ss)
