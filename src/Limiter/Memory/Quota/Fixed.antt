-- ===== src/Limiter/Memory/Quota/Fixed.antt =====
-- internal/limiter/memory.go with fixed_window.go: what one key is granted in one window among
-- requests of many.
use turnike.Common.{
  pos_part, leb, ltb, ltb→lt, ◌≤◌, true, false, none, some, List, [], ◌∷◌, keep, All, lookup,
  insert, lookup-insert, length, Text, text_eq, text_eq_iff, ok, ◌≡◌, refl, ap, ◌∙◌, subst, arith,
  Bool-cases, inl, inr,
}
use turnike.Config.{Limit, algo_fixed_window}
use turnike.Limiter.{Time, truncate}
use turnike.Limiter.Float.{Float}
use turnike.Limiter.FixedWindow
use turnike.Limiter.FixedWindow.{FixedWindow}
use turnike.Limiter.FixedWindow.Quota.{free, step-free}
use turnike.Limiter.Memory.{
  fixed, MemoryLimiter, state_key, step, new_bucket, store, start, find, allow,
}
use turnike.Limiter.Memory.Isolation.{Request, is_for, answer, allow-known, allow-other}
use turnike.Limiter.Memory.Quota.{admitted_for, HasLimit, turned_away}

module _ (fl : Float) where
  open fl use {F}

  -- The requests under a state key fall in the window that begins at `w`.
  abbrev pub IsIn : Text → Limit → Time → List Request → Type 0
  IsIn sk l w rs = All (λ r. truncate r.now l.window ≡ w) (keep (is_for sk) rs)

  -- The request is served by the key's bucket.
  abbrev Counted : Limit → Text → MemoryLimiter F → FixedWindow → Request → Type 0
  Counted l sk m b r = answer fl m r ≡ (
    record m { state = insert text_eq sk (fixed (FixedWindow.step l r.now b).0) m.state },
    ok (FixedWindow.step l r.now b).1,
  )

  known-Counted :
      (m : MemoryLimiter F) (b : FixedWindow) (r : Request)
      → lookup text_eq (state_key r.limit r.key) m.state ≡ some (fixed b)
      → Counted r.limit (state_key r.limit r.key) m b r
  unfolding step
  known-Counted m b r e = allow-known fl r.key r.limit r.now m (fixed b) e

  new_bucket_fixed :
      (a : Text) → a ≡ algo_fixed_window → new_bucket fl a ≡ some (fixed FixedWindow.empty)
  unfolding new_bucket text_eq
  new_bucket_fixed a e = rw e refl

  started-Counted :
      (m : MemoryLimiter F) (r : Request)
      → r.limit.algorithm ≡ algo_fixed_window
      → lookup text_eq (state_key r.limit r.key) m.state ≡ none
      → leb m.max_keys (length m.state) ≡ false
      → Counted r.limit (state_key r.limit r.key) m FixedWindow.empty r
  unfolding allow step
  started-Counted m r fixed_window new room =
      rw (new, find, room, new_bucket_fixed r.limit.algorithm fixed_window, start, store) refl

  of_key :
      (l : Limit) (sk : Text) (m : MemoryLimiter F) (b : FixedWindow) (r : Request)
      → r.limit ≡ l
      → state_key r.limit r.key ≡ sk
      → Counted r.limit (state_key r.limit r.key) m b r
      → Counted l sk m b r
  of_key l sk m b r same_limit same_key h =
      subst (λ k. Counted l k m b r) same_key
        (subst (λ x. Counted x (state_key r.limit r.key) m b r) same_limit h)

  Counted-lookup :
      (l : Limit) (sk : Text) (m : MemoryLimiter F) (b : FixedWindow) (r : Request)
      → Counted l sk m b r
      → lookup text_eq sk (answer fl m r).0.state ≡ some (fixed (FixedWindow.step l r.now b).0)
  Counted-lookup l sk m b r h =
      ap (λ q. lookup text_eq sk q.0.state) h
      ∙ (lookup-insert text_eq text_eq_iff sk sk (fixed (FixedWindow.step l r.now b).0) m.state
          ∙ rw ((text_eq_iff sk sk).1 refl) refl)

  -- One request takes one of what is left, and is admitted only if there was any.
  Counted-le :
      (l : Limit) (sk : Text) (w : Time) (m : MemoryLimiter F) (b : FixedWindow) (r : Request)
      (rs : List Request)
      → is_for sk r ≡ true
      → truncate r.now l.window ≡ w
      → Counted l sk m b r
      → length (admitted_for fl sk (answer fl m r).0 rs) ≤ free l w (FixedWindow.step l r.now b).0
      → length (admitted_for fl sk m (r ∷ rs)) ≤ free l w b
  unfolding admitted_for
  Counted-le l sk w m b r rs own inside h rest =
      let (allowed, left) = step-free l w r.now b inside in
      let decided : (answer fl m r).1 ≡ ok (FixedWindow.step l r.now b).1 = ap (λ q. q.1) h in
      rw (own, decided, allowed)
        (elim (Bool-cases (ltb 0 (free l w b))) [
          | inl some_left ↦
              rw some_left (omega (arith, rest, left, ltb→lt 0 (free l w b) some_left))
          | inr none_left ↦ rw none_left (omega (arith, rest, left))
        ])

  -- A key with a bucket is granted at most what is left of its window.
  admitted_for-known :
      (l : Limit) (sk : Text) (w : Time) (m : MemoryLimiter F) (b : FixedWindow) (rs : List Request)
      → HasLimit fl sk l rs
      → IsIn sk l w rs
      → lookup text_eq sk m.state ≡ some (fixed b)
      → length (admitted_for fl sk m rs) ≤ free l w b
  unfolding admitted_for
  admitted_for-known l sk w m b [] h inside e = omega arith
  admitted_for-known l sk w m b (r ∷ rs) h inside e = elim (Bool-cases (is_for sk r)) [
    | inr foreign ↦ rw foreign (
        admitted_for-known l sk w (answer fl m r).0 b rs (rw foreign at h) (rw foreign at inside)
          (allow-other fl r.key r.limit r.now m sk foreign ∙ e))
    | inl own ↦
        let (same_limit, others) : (r.limit ≡ l) × HasLimit fl sk l rs = rw own at h in
        let (now_inside, later) : (truncate r.now l.window ≡ w) × IsIn sk l w rs =
          rw own at inside in
        let same_key = (text_eq_iff (state_key r.limit r.key) sk).0 own in
        let counted =
          of_key l sk m b r same_limit same_key
            (known-Counted m b r (ap (λ k. lookup text_eq k m.state) same_key ∙ e)) in
        Counted-le l sk w m b r rs own now_inside counted (
          admitted_for-known l sk w (answer fl m r).0 (FixedWindow.step l r.now b).0 rs others later
            (Counted-lookup l sk m b r counted))
  ]

  free_le : (l : Limit) (w : Time) (b : FixedWindow) → free l w b ≤ pos_part l.rate
  free_le l w b = ground arith

  -- Among requests of many keys, in any order of time, a key that is new to the map and whose requests
  -- share one fixed-window limit is granted at most the rate in one window, however full the map is or
  -- gets.
  pub admitted_for-window :
      (sk : Text) (l : Limit) (w : Time) (m : MemoryLimiter F) (rs : List Request)
      → l.algorithm ≡ algo_fixed_window
      → HasLimit fl sk l rs
      → IsIn sk l w rs
      → lookup text_eq sk m.state ≡ none
      → length (admitted_for fl sk m rs) ≤ pos_part l.rate
  unfolding admitted_for
  admitted_for-window sk l w m [] a h inside new = omega arith
  admitted_for-window sk l w m (r ∷ rs) a h inside new = elim (Bool-cases (is_for sk r)) [
    | inr foreign ↦ rw foreign (
        admitted_for-window sk l w (answer fl m r).0 rs a (rw foreign at h) (rw foreign at inside)
          (allow-other fl r.key r.limit r.now m sk foreign ∙ new))
    | inl own ↦
        let (same_limit, others) : (r.limit ≡ l) × HasLimit fl sk l rs = rw own at h in
        let (now_inside, later) : (truncate r.now l.window ≡ w) × IsIn sk l w rs =
          rw own at inside in
        let same_key = (text_eq_iff (state_key r.limit r.key) sk).0 own in
        elim (Bool-cases (leb m.max_keys (length m.state))) [
          | inl full ↦
              rw (turned_away fl sk m r rs own new full)
                (admitted_for-window sk l w m rs a others later new)
          | inr room ↦
              let counted = of_key l sk m FixedWindow.empty r same_limit same_key (
                started-Counted m r (ap (λ x. x.algorithm) same_limit ∙ a)
                  (ap (λ k. lookup text_eq k m.state) same_key ∙ new) room) in
              let le : length (admitted_for fl sk m (r ∷ rs)) ≤ free l w FixedWindow.empty =
                Counted-le l sk w m FixedWindow.empty r rs own now_inside counted (
                  admitted_for-known l sk w (answer fl m r).0
                    (FixedWindow.step l r.now FixedWindow.empty).0 rs others later
                    (Counted-lookup l sk m FixedWindow.empty r counted)) in
              omega (arith, le, free_le l w FixedWindow.empty)
        ]
  ]
