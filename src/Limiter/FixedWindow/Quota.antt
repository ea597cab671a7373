-- ===== src/Limiter/FixedWindow/Quota.antt =====
-- internal/limiter/fixed_window.go: the quota within one window and across a boundary, and the
-- numbers of a decision.
use Prim.Native.Nat.{min}
use native.Mathlib.Decide.{dec_lt}
use native.Mathlib.Nat.{mod-le, mod-lt}
use turnike.Common.{
  pos, ◌+ℤ◌, ◌-ℤ◌, ◌<ℤ◌, ◌≤ℤ◌, eq_ℤ, pos_part, floor_mod, ℕ, ◌+◌, ◌-◌, ◌≤◌, ◌<◌, ltb, floor_to,
  floor_to_eq, floor_to_next, inl, inr, ◌⊎◌, true, false, List, [], ◌∷◌, map, All, length, Pairwise,
  ◌≡◌, ◌∙◌, arith, if◌then◌else◌,
}
use turnike.Config.{Limit}
use turnike.Config.Limits.{IsValidLimit}
use turnike.Limiter.{Time, truncate, admitted}
use turnike.Limiter.FixedWindow.{FixedWindow, step}

-- What is left of the quota for the window that starts at `w`.
abbrev pub free : Limit → Time → FixedWindow → ℕ
free l w b = if eq_ℤ b.window_start w then pos_part l.rate - b.count else pos_part l.rate

-- One request takes one of what is left, and is admitted exactly if there was any.
pub step-free :
    (l : Limit) (w t : Time) (b : FixedWindow)
    → truncate t l.window ≡ w
    → ((step l t b).1.allowed ≡ ltb 0 (free l w b)) × (free l w (step l t b).0 ≡ free l w b - 1)
unfolding step
step-free l w t b h = ground arith

-- Of requests in one window exactly as many are admitted as there are or as were left of the quota,
-- whichever is less.
pub admitted-eq-min :
    (l : Limit) (w : Time) (b : FixedWindow) (ts : List Time)
    → All (λ t. truncate t l.window ≡ w) ts
    → admitted step l b ts ≡ min (length ts) (free l w b)
admitted-eq-min l w b [] h = omega arith
admitted-eq-min l w b (t ∷ ts) (h, hs) =
    ground (arith, step-free l w t b h, admitted-eq-min l w (step l t b).0 ts hs)

-- An instant after the zero time is rounded down on the grid of the window.
pub truncate-pos : (n w : ℕ) → 0 < w → truncate (pos n) (pos w) ≡ pos (floor_to n w)
unfolding truncate floor_mod ◌-ℤ◌
truncate-pos n w h = ground (arith, mod-le n w)

pub step-window_start :
    (l : Limit) (t : Time) (b : FixedWindow) → (step l t b).0.window_start ≡ truncate t l.window
unfolding step
step-window_start l t b = ground arith

All-apply :
    (l : Limit) (v : Time) (t : Time) (ts : List Time)
    → truncate t l.window ≡ v
    → All (λ u. truncate t l.window ≡ v → truncate u l.window ≡ v) ts
    → All (λ u. truncate u l.window ≡ v) ts
All-apply l v t [] h k = tt
All-apply l v t (u ∷ ts) h (k, ks) = (k h, All-apply l v t ts h ks)

-- Requests in two windows, none of the first after one of the second: at most one quota for each.
admitted-two :
    (l : Limit) (w v : Time) (b : FixedWindow) (ts : List Time)
    → All (λ t. (truncate t l.window ≡ w) ⊎ (truncate t l.window ≡ v)) ts
    → Pairwise (λ s t. truncate s l.window ≡ v → truncate t l.window ≡ v) ts
    → admitted step l b ts ≤ free l w b + pos_part l.rate
admitted-two l w v b [] h k = omega arith
admitted-two l w v b (t ∷ ts) (inl h, hs) (k, ks) =
    let (now, next) = step-free l w t b h in
    ground (arith, now, next, admitted-two l w v (step l t b).0 ts hs ks)
admitted-two l w v b (t ∷ ts) (inr h, hs) (k, ks) =
    let later = All-apply l v t ts h k in ground (arith, admitted-eq-min l v b (t ∷ ts) (h, later))

abbrev IsSorted : List ℕ → Type 0
IsSorted ns = Pairwise (λ m n. m ≤ n) ns

-- The instants of a list of times after the zero time.
abbrev pub at : List ℕ → List Time
at ns = map pos ns

two_windows :
    (a d n : ℕ)
    → 0 < d
    → a ≤ n
    → n < a + d
    → (floor_to n d ≡ floor_to a d) ⊎ (floor_to n d ≡ floor_to a d + d)
two_windows a d n p h k = elim (dec_lt n (floor_to a d + d)) [
  | yes low ↦ inl (floor_to_eq a n d p (omega (arith, mod-le a d)) low)
  | no high ↦ inr (
      floor_to_eq (floor_to a d + d) n d p (rw (floor_to_next a d p) (omega (arith, high)))
        (rw (floor_to_next a d p) (omega (arith, mod-lt a p, mod-le a d)))
      ∙ floor_to_next a d p)
]

stays_high :
    (a d m n : ℕ)
    → 0 < d
    → a ≤ n
    → n < a + d
    → m ≤ n
    → floor_to m d ≡ floor_to a d + d
    → floor_to n d ≡ floor_to a d + d
stays_high a d m n p h k le e =
    omega (arith, two_windows a d n p h k, mod-le m d, mod-lt n p, mod-le n d)

module _ (l : Limit) (a d : ℕ) (p : 0 < d) (e : l.window ≡ pos d) where
  starts :
      (ns : List ℕ)
      → All (λ n. (a ≤ n) × (n < a + d)) ns
      → All
          (λ t.
            (truncate t l.window ≡ pos (floor_to a d))
            ⊎ (truncate t l.window ≡ pos (floor_to a d + d)))
          (at ns)
  starts [] h = tt
  starts (n ∷ ns) ((h, k), hs) =
      (ground (arith, e, truncate-pos n d p, two_windows a d n p h k), starts ns hs)

  ordered :
      (ns : List ℕ)
      → All (λ n. (a ≤ n) × (n < a + d)) ns
      → IsSorted ns
      → Pairwise
          (λ s t.
            truncate s l.window ≡ pos (floor_to a d + d)
            → truncate t l.window ≡ pos (floor_to a d + d))
          (at ns)
  ordered [] h s = tt
  ordered (n ∷ ns) (h, hs) (s, ss) = (later ns hs s, ordered ns hs ss)
    where
      later :
          (ms : List ℕ)
          → All (λ m. (a ≤ m) × (m < a + d)) ms
          → All (λ m. n ≤ m) ms
          → All
              (λ t.
                truncate (pos n) l.window ≡ pos (floor_to a d + d)
                → truncate t l.window ≡ pos (floor_to a d + d))
              (at ms)
      later [] h s = tt
      later (m ∷ ms) ((h, k), hs) (s, ss) = (
        λ high.
            ground
              (arith, e, high, truncate-pos n d p, truncate-pos m d p, stays_high a d n m p h k s),
        later ms hs ss,
      )

-- Of requests in order whose instants, after the zero time, lie in one stretch as long as the
-- window, at most twice the quota is admitted, in whatever state the bucket starts.
admitted-le-double :
    (l : Limit) (a d : ℕ) (b : FixedWindow) (ns : List ℕ)
    → 0 < d
    → l.window ≡ pos d
    → All (λ n. (a ≤ n) × (n < a + d)) ns
    → IsSorted ns
    → admitted step l b (at ns) ≤ pos_part l.rate + pos_part l.rate
admitted-le-double l a d b ns p e h s =
    let two =
      admitted-two l (pos (floor_to a d)) (pos (floor_to a d + d)) b (at ns) (starts l a d p e ns h)
        (ordered l a d p e ns h s) in
    ground (arith, two)

module _ (l : Limit) (valid : IsValidLimit l) where
  -- Under a valid limit, at any instant after the zero time and in any state: what remains lies
  -- between nothing and the rate, the reset comes after the request and at most a window later, an
  -- admitted request leaves less than the rate, and a denied one leaves nothing and is told to wait
  -- a positive time that ends at the reset.
  step_bounds :
      (t : ℕ) (b : FixedWindow)
      → let d = (step l (pos t) b).1 in
        (pos 0 ≤ℤ d.remaining)
        × (d.remaining ≤ℤ l.rate)
        × (pos t <ℤ d.reset)
        × (d.reset ≤ℤ pos t +ℤ l.window)
        × (d.allowed ≡ true → d.remaining <ℤ l.rate)
        × (d.allowed ≡ false
            → (d.remaining ≡ pos 0) × (pos 0 <ℤ d.retry_after) × (pos t +ℤ d.retry_after ≡ d.reset))
  unfolding step truncate floor_mod ◌-ℤ◌ ◌+ℤ◌
  step_bounds t b = ground (arith, valid, mod-lt t {m = pos_part l.window})
