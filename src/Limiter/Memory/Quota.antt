-- ===== src/Limiter/Memory/Quota.antt =====
-- internal/limiter/memory.go with sliding_window.go: what one key is granted among requests of many.
pub mod Fixed
use turnike.Common.{
  pos, ◌<ℤ◌, ◌≤ℤ◌, pos_part, leb, ◌≤◌, Bool, true, false, ◌&&◌, none, some, List, [], ◌∷◌, keep,
  map, All, Pairwise, lookup, insert, lookup-insert, length, Text, text_eq, text_eq_iff, Result, ok,
  err, ◌≡◌, refl, sym, ap, ◌∙◌, subst, arith, if◌then◌else◌, Bool-cases, inl, inr,
}
use turnike.Config.{Limit, algo_sliding_window}
use turnike.Limiter.{Time, Decision}
use turnike.Limiter.Float.{Float}
use turnike.Limiter.SlidingWindow
use turnike.Limiter.SlidingWindow.{SlidingWindow, admissions, evict, has_room}
use turnike.Limiter.SlidingWindow.Refinement.{step-total, log_after}
use turnike.Limiter.SlidingWindow.Quota.{count_within, admissions-quota}
use turnike.Limiter.Memory.{
  Bucket, sliding, AllowError, MemoryLimiter, state_key, step, new_bucket, store, start, find,
  allow,
}
use turnike.Limiter.Memory.Isolation.{Request, is_for, answer, allow-known, allow-other}

abbrev pub granted : Result AllowError Decision → Bool
granted (ok d) = d.allowed
granted (err e) = false

module _ (fl : Float) where
  open fl use {F}

  -- The instants of the requests under one state key that are admitted, among all that are served.
  unfoldable pub admitted_for : Text → MemoryLimiter F → List Request → List Time
  admitted_for sk m [] = []
  admitted_for sk m (r ∷ rs) =
      let rest = admitted_for sk (answer fl m r).0 rs in
      if is_for sk r && granted (answer fl m r).1 then r.now ∷ rest else rest

  -- The instants of the requests under a state key.
  abbrev instants : Text → List Request → List Time
  instants sk rs = map (λ r. r.now) (keep (is_for sk) rs)

  -- The requests under a state key share one limit.
  abbrev pub HasLimit : Text → Limit → List Request → Type 0
  HasLimit sk l rs = All (λ r. r.limit ≡ l) (keep (is_for sk) rs)

  abbrev logged : List Time → Bucket F
  logged log = sliding (record { timestamps = log })

  -- The request is served by the key's log: what the call leaves of the map, and its decision,
  -- which is the log's own.
  abbrev Serves : Limit → Text → MemoryLimiter F → List Time → Request → Type 0
  Serves l sk m log r =
      (d : Decision) × (answer fl m r
        ≡ (record m { state = insert text_eq sk (logged (log_after l r.now log)) m.state }, ok d))
      × (SlidingWindow.step l r.now (record { timestamps = log })
          ≡ some (record { timestamps = log_after l r.now log }, d))

  stepped :
      (l : Limit) (now : Time) (log : List Time)
      → pos 0 <ℤ l.rate
      → (d : Decision) × (step fl l now (logged log) ≡ some (logged (log_after l now log), d))
        × (SlidingWindow.step l now (record { timestamps = log })
            ≡ some (record { timestamps = log_after l now log }, d))
  unfolding step
  stepped l now log p =
      let (d, e, _) = step-total l now (record { timestamps = log }) p in (d, rw e refl, e)

  known-Serves :
      (m : MemoryLimiter F) (log : List Time) (r : Request)
      → pos 0 <ℤ r.limit.rate
      → lookup text_eq (state_key r.limit r.key) m.state ≡ some (logged log)
      → Serves r.limit (state_key r.limit r.key) m log r
  known-Serves m log r p e =
      let (d, ours, log_step) = stepped r.limit r.now log p in
      (d, allow-known fl r.key r.limit r.now m (logged log) e ∙ rw ours refl, log_step)

  new_bucket_sliding : (a : Text) → a ≡ algo_sliding_window → new_bucket fl a ≡ some (logged [])
  unfolding new_bucket text_eq
  new_bucket_sliding a e = rw e refl

  -- A new key that finds room starts with an empty log.
  started-Serves :
      (m : MemoryLimiter F) (r : Request)
      → pos 0 <ℤ r.limit.rate
      → r.limit.algorithm ≡ algo_sliding_window
      → lookup text_eq (state_key r.limit r.key) m.state ≡ none
      → leb m.max_keys (length m.state) ≡ false
      → Serves r.limit (state_key r.limit r.key) m [] r
  unfolding allow
  started-Serves m r p sliding_window new room =
      let (d, ours, log_step) = stepped r.limit r.now [] p in
      let made = new_bucket_sliding r.limit.algorithm sliding_window in
      (d, rw (new, find, room, made, start, ours, store) refl, log_step)

  of_key :
      (l : Limit) (sk : Text) (m : MemoryLimiter F) (log : List Time) (r : Request)
      → r.limit ≡ l
      → state_key r.limit r.key ≡ sk
      → Serves r.limit (state_key r.limit r.key) m log r
      → Serves l sk m log r
  of_key l sk m log r same_limit same_key h =
      subst (λ k. Serves l k m log r) same_key
        (subst (λ x. Serves x (state_key r.limit r.key) m log r) same_limit h)

  Serves-lookup :
      (l : Limit) (sk : Text) (m : MemoryLimiter F) (log : List Time) (r : Request)
      → Serves l sk m log r
      → lookup text_eq sk (answer fl m r).0.state ≡ some (logged (log_after l r.now log))
  Serves-lookup l sk m log r (d, answered, _) =
      ap (λ q. lookup text_eq sk q.0.state) answered
      ∙ (lookup-insert text_eq text_eq_iff sk sk (logged (log_after l r.now log)) m.state
          ∙ rw ((text_eq_iff sk sk).1 refl) refl)

  -- A request that its key's log serves, and then as that log does.
  Serves-admitted :
      (l : Limit) (sk : Text) (m : MemoryLimiter F) (log : List Time) (r : Request)
      (rs : List Request)
      → is_for sk r ≡ true
      → Serves l sk m log r
      → admitted_for sk (answer fl m r).0 rs
        ≡ admissions l (record { timestamps = log_after l r.now log }) (instants sk rs)
      → admitted_for sk m (r ∷ rs)
        ≡ admissions l (record { timestamps = log }) (instants sk (r ∷ rs))
  unfolding admitted_for admissions
  Serves-admitted l sk m log r rs own (d, answered, log_step) rest =
      let decided : (answer fl m r).1 ≡ ok d = ap (λ q. q.1) answered in
      rw (own, rest, decided, log_step, admissions) refl

  -- A key with a log admits what the log alone does.
  admitted_for-known :
      (l : Limit) (sk : Text) (m : MemoryLimiter F) (log : List Time) (rs : List Request)
      → pos 0 <ℤ l.rate
      → HasLimit sk l rs
      → lookup text_eq sk m.state ≡ some (sliding (record { timestamps = log }))
      → admitted_for sk m rs ≡ admissions l (record { timestamps = log }) (instants sk rs)
  unfolding admitted_for admissions
  admitted_for-known l sk m log [] p h e = refl
  admitted_for-known l sk m log (r ∷ rs) p h e = elim (Bool-cases (is_for sk r)) [
    | inl own ↦
        let (same_limit, others) : (r.limit ≡ l) × HasLimit sk l rs = rw own at h in
        let same_key = (text_eq_iff (state_key r.limit r.key) sk).0 own in
        let serves = of_key l sk m log r same_limit same_key (
          known-Serves m log r (subst (λ x. pos 0 <ℤ x.rate) (sym same_limit) p)
            (ap (λ k. lookup text_eq k m.state) same_key ∙ e)) in
        Serves-admitted l sk m log r rs own serves (
          admitted_for-known l sk (answer fl m r).0 (log_after l r.now log) rs p others
            (Serves-lookup l sk m log r serves))
    | inr foreign ↦ rw foreign (
        admitted_for-known l sk (answer fl m r).0 log rs p (rw foreign at h)
          (allow-other fl r.key r.limit r.now m sk foreign ∙ e))
  ]

  instants-All :
      (sk : Text) (t : Time) (rs : List Request)
      → All (λ s. t ≤ℤ s.now) rs
      → All (λ s. t ≤ℤ s) (instants sk rs)
  instants-All sk t [] h = tt
  instants-All sk t (r ∷ rs) (le, h) = elim (Bool-cases (is_for sk r)) [
    | inl own ↦ rw own (le, instants-All sk t rs h)
    | inr foreign ↦ rw foreign (instants-All sk t rs h)
  ]

  instants-Pairwise :
      (sk : Text) (rs : List Request)
      → Pairwise (λ r s. r.now ≤ℤ s.now) rs
      → Pairwise (λ s t. s ≤ℤ t) (instants sk rs)
  instants-Pairwise sk [] h = tt
  instants-Pairwise sk (r ∷ rs) (h, hs) = elim (Bool-cases (is_for sk r)) [
    | inl own ↦ rw own (instants-All sk r.now rs h, instants-Pairwise sk rs hs)
    | inr foreign ↦ rw foreign (instants-Pairwise sk rs hs)
  ]

  turned_away :
      (sk : Text) (m : MemoryLimiter F) (r : Request) (rs : List Request)
      → is_for sk r ≡ true
      → lookup text_eq sk m.state ≡ none
      → leb m.max_keys (length m.state) ≡ true
      → admitted_for sk m (r ∷ rs) ≡ admitted_for sk m rs
  unfolding admitted_for allow
  turned_away sk m r rs own new full =
      let same_key = (text_eq_iff (state_key r.limit r.key) sk).0 own in
      rw (ap (λ k. lookup text_eq k m.state) same_key ∙ new, find, full) (rw own refl)

  -- Among requests of many keys, in order of time and whatever they are, a key that is new to the map
  -- and whose requests share one sliding-window limit with a positive rate is granted at most the rate
  -- in any stretch as long as the window, however full the map is or gets.
  pub admitted_for-quota :
      (sk : Text) (l : Limit) (c : Time) (m : MemoryLimiter F) (rs : List Request)
      → pos 0 <ℤ l.rate
      → l.algorithm ≡ algo_sliding_window
      → HasLimit sk l rs
      → Pairwise (λ r s. r.now ≤ℤ s.now) rs
      → lookup text_eq sk m.state ≡ none
      → count_within c l.window (admitted_for sk m rs) ≤ pos_part l.rate
  unfolding admitted_for
  admitted_for-quota sk l c m [] p a h s new = omega arith
  admitted_for-quota sk l c m (r ∷ rs) p a h (first, s) new = elim (Bool-cases (is_for sk r)) [
    | inr foreign ↦ rw foreign (
        admitted_for-quota sk l c (answer fl m r).0 rs p a (rw foreign at h) s
          (allow-other fl r.key r.limit r.now m sk foreign ∙ new))
    | inl own ↦
        let (same_limit, others) : (r.limit ≡ l) × HasLimit sk l rs = rw own at h in
        let same_key = (text_eq_iff (state_key r.limit r.key) sk).0 own in
        elim (Bool-cases (leb m.max_keys (length m.state))) [
          | inl full ↦
              rw (turned_away sk m r rs own new full)
                (admitted_for-quota sk l c m rs p a others s new)
          | inr room ↦
              let serves = of_key l sk m [] r same_limit same_key (
                started-Serves m r (subst (λ x. pos 0 <ℤ x.rate) (sym same_limit) p)
                  (ap (λ x. x.algorithm) same_limit ∙ a)
                  (ap (λ k. lookup text_eq k m.state) same_key ∙ new) room) in
              let as_log = Serves-admitted l sk m [] r rs own serves (
                admitted_for-known l sk (answer fl m r).0 (log_after l r.now []) rs p others
                  (Serves-lookup l sk m [] r serves)) in
              rw as_log (
                admissions-quota l c (instants sk (r ∷ rs)) p
                  (instants-Pairwise sk (r ∷ rs) (first, s)))
        ]
  ]
