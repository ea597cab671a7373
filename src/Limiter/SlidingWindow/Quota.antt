-- ===== src/Limiter/SlidingWindow/Quota.antt =====
-- internal/limiter/sliding_window.go: the admissions in a stretch of time as long as the window.
use mathlib.Core.List.{append_assoc, append-nil}
use turnike.Common.{
  pos, ◌+ℤ◌, ◌<ℤ◌, ◌≤ℤ◌, ltb_ℤ, leb_ℤ, pos_part, +ℤ_parts, -ℤ_parts, ℕ, ◌≤◌, Bool, true, ◌&&◌, List,
  [], ◌∷◌, ◌++◌, keep, keep-append, length, length-append, length-keep_mono, Pairwise, ◌≡◌, arith,
  Bool-cases, inl, inr,
}
use turnike.Config.{Limit, Duration}
use turnike.Limiter.{Time}
use turnike.Limiter.SlidingWindow.{empty, is_live, evict, has_room, admissions, ideal}
use turnike.Limiter.SlidingWindow.Refinement.{fits-eq-has_room, admissions-eq-ideal}

-- In the stretch of length `w` that begins just after `c`.
abbrev pub within : Time → Duration → Time → Bool
within c w t = ltb_ℤ c t && leb_ℤ t (c +ℤ w)

-- How many of the instants lie in that stretch.
abbrev pub count_within : Time → Duration → List Time → ℕ
count_within c w ts = length (keep (within c w) ts)

-- Whatever shares a stretch with the new request still counts when it comes.
within-is_live :
    (c : Time) (w : Duration) (t x : Time)
    → within c w t ≡ true
    → within c w x ≡ true
    → is_live w t x ≡ true
within-is_live c w t x h k = ground (arith, +ℤ_parts c w, -ℤ_parts t w)

count_within-append :
    (l : Limit) (c t : Time) (xs : List Time)
    → has_room l (evict l.window t xs) ≡ true
    → count_within c l.window xs ≤ pos_part l.rate
    → count_within c l.window (xs ++ t ∷ []) ≤ pos_part l.rate
unfolding evict
count_within-append l c t xs room h = elim (Bool-cases (within c l.window t)) [
  | inl inside ↦
      let le =
        length-keep_mono (within c l.window) (is_live l.window t) xs
          (λ x. within-is_live c l.window t x inside) in
      rw (keep-append (within c l.window) xs (t ∷ []), inside)
        (ground (arith, le, room, length-append (keep (within c l.window) xs) (t ∷ [])))
  | inr outside ↦
      rw
        (
          keep-append (within c l.window) xs (t ∷ []),
          outside,
          append-nil (keep (within c l.window) xs),
        )
        h
]

ideal-quota :
    (l : Limit) (c : Time) (history ts : List Time)
    → ((u : Time) → count_within u l.window history ≤ pos_part l.rate)
    → count_within c l.window (history ++ ideal l history ts) ≤ pos_part l.rate
unfolding ideal
ideal-quota l c history [] h = rw (append-nil history) (h c)
ideal-quota l c history (t ∷ ts) h = elim (Bool-cases (has_room l (evict l.window t history))) [
  | inl room ↦
      let ih =
        ideal-quota l c (history ++ t ∷ []) ts
          (λ u. count_within-append l u t history room (h u)) in
      rw (fits-eq-has_room l t history, room) (rw (append_assoc history (t ∷ [])) at ih)
  | inr full ↦ rw (fits-eq-has_room l t history, full) (ideal-quota l c history ts h)
]

-- With a positive rate and requests in order, a new bucket admits at most `rate` of them in any
-- stretch as long as the window.
pub admissions-quota :
    (l : Limit) (c : Time) (ts : List Time)
    → pos 0 <ℤ l.rate
    → Pairwise (λ s t. s ≤ℤ t) ts
    → count_within c l.window (admissions l empty ts) ≤ pos_part l.rate
admissions-quota l c ts p s =
    rw (admissions-eq-ideal l ts p s) (ideal-quota l c [] ts (λ u. omega arith))
