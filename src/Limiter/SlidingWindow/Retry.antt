-- ===== src/Limiter/SlidingWindow/Retry.antt =====
-- internal/limiter/sliding_window.go: the log's invariant, and what a denied client is told.
use mathlib.Core.Option
use turnike.Common.{
  pos, ◌+ℤ◌, ◌-ℤ◌, ◌<ℤ◌, ◌≤ℤ◌, leb_ℤ, +ℤ_parts, -ℤ_parts, add-sub_cancel, suc, Bool, true, false,
  List, [], ◌∷◌, ◌++◌, keep, length, length-append, length-keep-le, All, All-append, All-keep,
  Pairwise, some, ◌≡◌, refl, ap, ◌∙◌, arith, Bool-cases, inl, inr,
}
use turnike.Config.{Limit, Duration}
use turnike.Limiter.{Time, Decision}
use turnike.Limiter.SlidingWindow.{
  SlidingWindow, is_live, evict, has_room, append_if, retry_after, decide, step,
}
use turnike.Limiter.SlidingWindow.Refinement.{log_after, step-total}

-- Ascending, none later than the last request, and never more than the rate.
pub record IsLog (l : Limit) (now : Time) (log : List Time) : Type 0 where
  pub sorted : Pairwise (λ s t. s ≤ℤ t) log
  pub past : All (λ t. t ≤ℤ now) log
  pub bounded : pos (length log) ≤ℤ l.rate

Pairwise-keep :
    (p : Time → Bool) (xs : List Time)
    → Pairwise (λ s t. s ≤ℤ t) xs
    → Pairwise (λ s t. s ≤ℤ t) (keep p xs)
Pairwise-keep p [] h = tt
Pairwise-keep p (x ∷ xs) (h, hs) =
    ground (arith, All-keep (λ t. x ≤ℤ t) p xs h, Pairwise-keep p xs hs)

Pairwise-append_one :
    (xs : List Time) (t : Time)
    → Pairwise (λ s u. s ≤ℤ u) xs
    → All (λ s. s ≤ℤ t) xs
    → Pairwise (λ s u. s ≤ℤ u) (xs ++ t ∷ [])
Pairwise-append_one [] t h k = (tt, tt)
Pairwise-append_one (x ∷ xs) t (h, hs) (k, ks) =
    (All-append (λ u. x ≤ℤ u) xs (t ∷ []) h (k, tt), Pairwise-append_one xs t hs ks)

All-past : (s t : Time) (xs : List Time) → s ≤ℤ t → All (λ u. u ≤ℤ s) xs → All (λ u. u ≤ℤ t) xs
All-past s t [] le h = tt
All-past s t (x ∷ xs) le (h, hs) = (omega arith, All-past s t xs le hs)

-- Every request that is no earlier than the last keeps the log ascending, in the past and no longer
-- than the rate.
log_after-IsLog :
    (l : Limit) (before now : Time) (log : List Time)
    → before ≤ℤ now
    → IsLog l before log
    → IsLog l now (log_after l now log)
unfolding evict
log_after-IsLog l before now log le v =
    let live = is_live l.window now in
    let sorted = Pairwise-keep live log v.sorted in
    let past = All-keep (λ t. t ≤ℤ now) live log (All-past before now log le v.past) in
    let short = length-keep-le live log in
    elim (Bool-cases (has_room l (keep live log))) [
      | inl room ↦ rw room (record {
        sorted = Pairwise-append_one (keep live log) now sorted past;
        past = All-append (λ t. t ≤ℤ now) (keep live log) (now ∷ []) past (omega arith, tt);
        bounded = ground (arith, room, length-append (keep live log) (now ∷ []));
      })
      | inr full ↦
          rw full
            (record { sorted = sorted; past = past; bounded = ground (arith, short, v.bounded) })
    ]

evict-all :
    (w : Duration) (t : Time) (xs : List Time)
    → All (λ x. is_live w t x ≡ true) xs
    → evict w t xs ≡ xs
unfolding evict
evict-all w t [] h = refl
evict-all w t (x ∷ xs) (h, hs) = rw (h, evict-all w t xs hs)

-- An instant is later than every live one from which it is less than a window away.
live_until :
    (w : Duration) (u x y : Time) → x ≤ℤ y → leb_ℤ (x +ℤ w) u ≡ false → is_live w u y ≡ true
live_until w u x y le h = ground (arith, +ℤ_parts x w, -ℤ_parts u w)

dead_from : (w : Duration) (u x : Time) → leb_ℤ (x +ℤ w) u ≡ true → is_live w u x ≡ false
dead_from w u x h = ground (arith, +ℤ_parts x w, -ℤ_parts u w)

All-live_until :
    (w : Duration) (u x : Time) (ys : List Time)
    → leb_ℤ (x +ℤ w) u ≡ false
    → All (λ y. x ≤ℤ y) ys
    → All (λ y. is_live w u y ≡ true) ys
All-live_until w u x [] h k = tt
All-live_until w u x (y ∷ ys) h (k, ks) = (live_until w u x y k h, All-live_until w u x ys h ks)

-- A full sorted log has room again exactly when its oldest entry is a window old.
full-has_room :
    (l : Limit) (u x : Time) (xs : List Time)
    → Pairwise (λ s t. s ≤ℤ t) (x ∷ xs)
    → l.rate ≡ pos (suc (length xs))
    → has_room l (evict l.window u (x ∷ xs)) ≡ leb_ℤ (x +ℤ l.window) u
unfolding evict
full-has_room l u x xs (h, hs) full = elim (Bool-cases (leb_ℤ (x +ℤ l.window) u)) [
  | inl late ↦
      rw (late, dead_from l.window u x late)
        (ground (arith, full, length-keep-le (is_live l.window u) xs))
  | inr early ↦
      rw
        (
          early,
          live_until l.window u x x (omega arith) early,
          evict-all l.window u xs (All-live_until l.window u x xs early h),
        )
        (ground (arith, full))
]

denied_from :
    (l : Limit) (now : Time) (room : Bool) (kept : List Time) (b' : SlidingWindow) (d : Decision)
    → Option.map
        (decide l now room (append_if room now kept))
        (retry_after l now room (append_if room now kept))
      ≡ some (b', d)
    → d.allowed ≡ false
    → (room ≡ false) × (b'.timestamps ≡ kept) × (retry_after l now false kept ≡ some d.retry_after)
unfolding retry_after
denied_from l now true kept b' d e h = ground arith
denied_from l now false [] b' d e h = ground arith
denied_from l now false (x ∷ xs) b' d e h = ground arith

-- A denied request leaves the live part as the log, and reports its oldest entry's expiry.
denied :
    (l : Limit) (now : Time) (b b' : SlidingWindow) (d : Decision)
    → step l now b ≡ some (b', d)
    → d.allowed ≡ false
    → (has_room l (evict l.window now b.timestamps) ≡ false)
      × (b'.timestamps ≡ evict l.window now b.timestamps)
      × (retry_after l now false (evict l.window now b.timestamps) ≡ some d.retry_after)
unfolding step
denied l now b b' d e h =
    let kept = evict l.window now b.timestamps in denied_from l now (has_room l kept) kept b' d e h

staggered :
    (l : Limit) (now u : Time) (d : Duration) (kept : List Time)
    → pos 0 <ℤ l.rate
    → Pairwise (λ s t. s ≤ℤ t) kept
    → pos (length kept) ≤ℤ l.rate
    → has_room l kept ≡ false
    → retry_after l now false kept ≡ some d
    → has_room l (evict l.window u kept) ≡ leb_ℤ (now +ℤ d) u
unfolding retry_after
staggered l now u d [] p s k full e = cc
staggered l now u d (x ∷ xs) p s k full e =
    let same : d ≡ (x +ℤ l.window) -ℤ now = cc in
    let advised = ap (λ r. now +ℤ r) same ∙ add-sub_cancel now (x +ℤ l.window) in
    rw advised (full-has_room l u x xs s (ground (arith, full, k, p)))

-- With a positive rate and a log that is in order, a denied client is told exactly how long to wait:
-- its next request does not panic, and is admitted if and only if the advised time has passed.
pub step-retry_after_oldest :
    (l : Limit) (before now u : Time) (b b' : SlidingWindow) (d : Decision)
    → pos 0 <ℤ l.rate
    → IsLog l before b.timestamps
    → before ≤ℤ now
    → step l now b ≡ some (b', d)
    → d.allowed ≡ false
    → (r : SlidingWindow × Decision) × (step l u b' ≡ some r)
      × (r.1.allowed ≡ leb_ℤ (now +ℤ d.retry_after) u)
step-retry_after_oldest l before now u b b' d p v le e h =
    let (full, same, retry) = denied l now b b' d e h in
    let live = is_live l.window now in
    let (d', e', allowed) = step-total l u b' p in
    (
      (record { timestamps = log_after l u b'.timestamps }, d'),
      e',
      allowed
          ∙ rw same (
              staggered l now u d.retry_after (evict l.window now b.timestamps) p
                (unfold evict in Pairwise-keep live b.timestamps v.sorted)
                (unfold evict in omega (arith, length-keep-le live b.timestamps, v.bounded)) full
                retry),
    )
