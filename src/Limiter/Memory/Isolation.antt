-- ===== src/Limiter/Memory/Isolation.antt =====
-- internal/limiter/memory.go: the answers that one key gets among requests of many.
use turnike.Common.{
  leb, Bool, false, Option, none, some, List, [], ◌∷◌, length, lookup, insert, lookup-insert, keep,
  Text, text_eq, text_eq_iff, Result, ok, err, ◌≡◌, refl, ap, ap₂, ◌∙◌, if◌then◌else◌, Bool-cases,
  inl, inr,
}
use turnike.Config.{Limit}
use turnike.Limiter.{Time, Decision}
use turnike.Limiter.Float.{Float}
use turnike.Limiter.SlidingWindow
use turnike.Limiter.Memory.{
  Bucket, sliding, AllowError, panicked, MemoryLimiter, state_key, step, new_bucket, store, start,
  find, allow,
}

pub record Request : Type 0 where
  pub key : Text
  pub limit : Limit
  pub now : Time

abbrev pub is_for : Text → Request → Bool
is_for sk r = text_eq (state_key r.limit r.key) sk

module _ (fl : Float) where
  open fl use {F}

  abbrev pub answer : MemoryLimiter F → Request → MemoryLimiter F × Result AllowError Decision
  answer m r = allow fl r.key r.limit r.now m

  -- What the requests under one state key are answered, among all requests that are served.
  pub answers_for : Text → MemoryLimiter F → List Request → List (Result AllowError Decision)
  answers_for sk m [] = []
  answers_for sk m (r ∷ rs) =
      let rest = answers_for sk (answer m r).0 rs in
      if is_for sk r then (answer m r).1 ∷ rest else rest

  -- The bucket that a step leaves behind, and its answer.
  abbrev pub outcome : Option (Bucket F × Decision) → Bucket F × Result AllowError Decision
  outcome none = (sliding SlidingWindow.empty, err panicked)
  outcome (some (b, d)) = (b, ok d)

  -- The answers of one bucket that serves these requests alone.
  pub alone : Bucket F → List Request → List (Result AllowError Decision)
  alone b [] = []
  alone b (r ∷ rs) = let (b', a) = outcome (step fl r.limit r.now b) in a ∷ alone b' rs

  store-outcome :
      (m : MemoryLimiter F) (sk : Text) (r : Option (Bucket F × Decision))
      → store fl m sk r
        ≡ (record m { state = insert text_eq sk (outcome r).0 m.state }, (outcome r).1)
  unfolding store
  store-outcome m sk none = refl
  store-outcome m sk (some (b, d)) = refl

  -- A known key's bucket takes the step, and is stored.
  pub allow-known :
      (key : Text) (l : Limit) (now : Time) (m : MemoryLimiter F) (b : Bucket F)
      → lookup text_eq (state_key l key) m.state ≡ some b
      → allow fl key l now m ≡ (
        record m { state = insert text_eq (state_key l key) (outcome (step fl l now b)).0 m.state },
        (outcome (step fl l now b)).1,
      )
  unfolding allow
  allow-known key l now m b e = rw (e, find) (store-outcome m (state_key l key) (step fl l now b))

  store-other :
      (m : MemoryLimiter F) (sk other : Text) (r : Option (Bucket F × Decision))
      → text_eq sk other ≡ false
      → lookup text_eq other (store fl m sk r).0.state ≡ lookup text_eq other m.state
  store-other m sk other r ne =
      rw (store-outcome m sk r, lookup-insert text_eq text_eq_iff sk other, ne)

  find-other :
      (m : MemoryLimiter F) (l : Limit) (sk other : Text) (now : Time) (o : Option (Bucket F))
      → text_eq sk other ≡ false
      → lookup text_eq other (find fl m l sk now o).0.state ≡ lookup text_eq other m.state
  unfolding find start
  find-other m l sk other now (some b) ne = store-other m sk other (step fl l now b) ne
  find-other m l sk other now none ne = elim (Bool-cases (leb m.max_keys (length m.state))) [
    | inl full ↦ rw full
    | inr room ↦ rw room (started (new_bucket fl l.algorithm))
  ]
    where
      started :
          (nb : Option (Bucket F))
          → lookup text_eq other (start fl m l sk now nb).0.state ≡ lookup text_eq other m.state
      started none = refl
      started (some b) = store-other m sk other (step fl l now b) ne

  -- A call leaves every other key's bucket as it was, whatever its outcome.
  pub allow-other :
      (key : Text) (l : Limit) (now : Time) (m : MemoryLimiter F) (other : Text)
      → text_eq (state_key l key) other ≡ false
      → lookup text_eq other (allow fl key l now m).0.state ≡ lookup text_eq other m.state
  unfolding allow
  allow-other key l now m other ne =
      find-other m l (state_key l key) other now (lookup text_eq (state_key l key) m.state) ne

  -- Once a key has a bucket, its answers are those of that bucket serving the key's requests alone,
  -- whatever other keys ask in between and however full the map is.
  pub answers_for-eq-alone :
      (sk : Text) (m : MemoryLimiter F) (b : Bucket F) (rs : List Request)
      → lookup text_eq sk m.state ≡ some b
      → answers_for sk m rs ≡ alone b (keep (is_for sk) rs)
  unfolding answers_for alone
  answers_for-eq-alone sk m b [] e = refl
  answers_for-eq-alone sk m b (r ∷ rs) e = elim (Bool-cases (is_for sk r)) [
    | inl own ↦
        let same = (text_eq_iff (state_key r.limit r.key) sk).0 own in
        let known =
          allow-known r.key r.limit r.now m b (ap (λ k. lookup text_eq k m.state) same ∙ e) in
        let b' = (outcome (step fl r.limit r.now b)).0 in
        let kept : lookup text_eq sk (answer m r).0.state ≡ some b' =
          ap (λ q. lookup text_eq sk q.0.state) known
          ∙ (lookup-insert text_eq text_eq_iff (state_key r.limit r.key) sk b' m.state ∙ rw own) in
        rw own (
          ap₂ (λ a more. a ∷ more) (ap (λ q. q.1) known)
            (answers_for-eq-alone sk (answer m r).0 b' rs kept))
    | inr foreign ↦ rw foreign (
        answers_for-eq-alone sk (answer m r).0 b rs
          (allow-other r.key r.limit r.now m sk foreign ∙ e))
  ]
