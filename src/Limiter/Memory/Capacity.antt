-- ===== src/Limiter/Memory/Capacity.antt =====
-- internal/limiter/memory.go: the size of the map, and what a validated limit can meet.
use turnike.Common.{
  pos, ◌<ℤ◌, ◌≤◌, suc, leb, false, Option, none, some, List, [], ◌∷◌, length, lookup, insert, Text,
  text_eq, text_eq_iff, ok, err, ◌≡◌, ◌⊎◌, inl, inr, refl, arith, Option-cases, Bool-cases,
}
use turnike.Config.{Limit, algo_fixed_window, algo_token_bucket, algo_sliding_window}
use turnike.Config.Limits.{IsValidLimit}
use turnike.Limiter.{Time, Decision}
use turnike.Limiter.Float.{Float}
use turnike.Limiter.FixedWindow
use turnike.Limiter.SlidingWindow
use turnike.Limiter.TokenBucket
use turnike.Limiter.SlidingWindow.Refinement.{step-total, log_after}
use turnike.Limiter.Memory.{
  Bucket, fixed, token, sliding, at_capacity, MemoryLimiter, state_key, step, new_bucket, store,
  start, find, allow,
}

length-insert-new {ℓ} :
    {V : Type ℓ} (k : Text) (v : V) (m : List (Text × V))
    → length (insert text_eq k v m)
      ≡ (elim (lookup text_eq k m) [ none ↦ suc (length m) | some _ ↦ length m ])
length-insert-new k v [] = refl
length-insert-new k v ((j, w) ∷ m) = ground (arith, length-insert-new k v m)

module _ (fl : Float) where
  open fl use {F}

  store-length :
      (m : MemoryLimiter F) (sk : Text) (r : Option (Bucket F × Decision))
      → (length (store fl m sk r).0.state ≡ (elim (lookup text_eq sk m.state) [
        | none ↦ suc (length m.state)
        | some _ ↦ length m.state
      ]))
        × ((store fl m sk r).0.max_keys ≡ m.max_keys)
  unfolding store
  store-length m sk none = (length-insert-new sk (sliding SlidingWindow.empty) m.state, refl)
  store-length m sk (some (b, d)) = (length-insert-new sk b m.state, refl)

  find-capacity :
      (l : Limit) (sk : Text) (now : Time) (m : MemoryLimiter F) (o : Option (Bucket F))
      → lookup text_eq sk m.state ≡ o
      → length m.state ≤ m.max_keys
      → (length (find fl m l sk now o).0.state ≤ (find fl m l sk now o).0.max_keys)
        × ((find fl m l sk now o).0.max_keys ≡ m.max_keys)
  unfolding find start
  find-capacity l sk now m (some b) e h = ground (arith, store-length m sk (step fl l now b))
  find-capacity l sk now m none e h = elim (Bool-cases (leb m.max_keys (length m.state))) [
    | inl full ↦ rw full (h, refl)
    | inr room ↦ rw room (started (new_bucket fl l.algorithm) room)
  ]
    where
      started :
          (nb : Option (Bucket F))
          → leb m.max_keys (length m.state) ≡ false
          → (length (start fl m l sk now nb).0.state ≤ (start fl m l sk now nb).0.max_keys)
            × ((start fl m l sk now nb).0.max_keys ≡ m.max_keys)
      started none room = (h, refl)
      started (some b) room = ground (arith, room, e, store-length m sk (step fl l now b))

  -- A call takes a map within its capacity to one within the same capacity, whatever its outcome.
  allow-capacity :
      (key : Text) (l : Limit) (now : Time) (m : MemoryLimiter F)
      → length m.state ≤ m.max_keys
      → (length (allow fl key l now m).0.state ≤ (allow fl key l now m).0.max_keys)
        × ((allow fl key l now m).0.max_keys ≡ m.max_keys)
  unfolding allow
  allow-capacity key l now m h =
      find-capacity l (state_key l key) now m (lookup text_eq (state_key l key) m.state) refl h

  pub step-some :
      (l : Limit) (now : Time) (b : Bucket F)
      → pos 0 <ℤ l.rate
      → (r : Bucket F × Decision) × (step fl l now b ≡ some r)
  unfolding step
  step-some l now (fixed b) p = (_, refl)
  step-some l now (token b) p = (_, refl)
  step-some l now (sliding b) p =
      let (d, e, _) = step-total l now b p in
      ((sliding (record { timestamps = log_after l now b.timestamps }), d), rw e)

  pub new_bucket-some :
      (l : Limit) → IsValidLimit l → (b : Bucket F) × (new_bucket fl l.algorithm ≡ some b)
  unfolding new_bucket
  new_bucket-some l v = elim (Bool-cases (text_eq l.algorithm algo_fixed_window)) [
    | inl f ↦ (fixed FixedWindow.empty, rw f)
    | inr nf ↦ elim (Bool-cases (text_eq l.algorithm algo_token_bucket)) [
      | inl t ↦ (token (TokenBucket.empty fl), rw (nf, t))
      | inr nt ↦ (
        sliding SlidingWindow.empty,
        ground (
          arith,
          nf,
          nt,
          v,
          text_eq_iff l.algorithm algo_fixed_window,
          text_eq_iff l.algorithm algo_token_bucket,
          text_eq_iff l.algorithm algo_sliding_window,
        ),
      )
    ]
  ]

  -- Under a valid limit there are two outcomes only: a decision, or the capacity error, which a key
  -- gets if it is new to a full map and which changes nothing.
  pub allow-outcome :
      (key : Text) (l : Limit) (now : Time) (m : MemoryLimiter F)
      → IsValidLimit l
      → ((d : Decision) × ((allow fl key l now m).1 ≡ ok d))
        ⊎ ((allow fl key l now m ≡ (m, err (at_capacity m.max_keys)))
            × (lookup text_eq (state_key l key) m.state ≡ none)
            × (m.max_keys ≤ length m.state))
  unfolding allow
  allow-outcome key l now m v = elim (Option-cases (lookup text_eq (state_key l key) m.state)) [
    | inr (b, found) ↦
        let ((b', d), e) = step-some l now b v.rate in inl (d, rw (found, find, e, store))
    | inl new ↦ elim (Bool-cases (leb m.max_keys (length m.state))) [
      | inl full ↦ inr (rw (new, find, full), new, ground (arith, full))
      | inr room ↦
          let (b, made) = new_bucket-some l v in
          let ((b', d), e) = step-some l now b v.rate in
          inl (d, rw (new, find, room, made, start, e, store))
    ]
  ]
