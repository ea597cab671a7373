-- ===== src/Limiter/Memory/Kinds.antt =====
-- internal/limiter/memory.go: the algorithm as a part of a bucket's state key.
use turnike.Common.{
  leb, some, List, [], ◌∷◌, ◌++◌, length, lookup, insert, All, Text, text_eq, text_eq_iff, ◌≡◌, ◌≢◌,
  refl, ap, subst, sym, arith, ◌∙◌, Option-cases, Bool-cases, inl, inr,
}
use turnike.Config.{Limit, algo_fixed_window, algo_token_bucket, algo_sliding_window}
use turnike.Config.Limits.{IsValidLimit}
use turnike.Limiter.{Time, Decision}
use turnike.Limiter.Float.{Float}
use turnike.Limiter.Memory.{
  Bucket, fixed, token, sliding, MemoryLimiter, state_key, step, new_bucket, store, start, find,
  allow,
}
use turnike.Limiter.Memory.Capacity.{step-some, new_bucket-some}

abbrev HasNoColon : Text → Type 0
HasNoColon t = All (λ c. c ≢ b':') t

-- A text before the first colon is determined by the whole.
before_colon-injective :
    (a b k j : Text)
    → HasNoColon a
    → HasNoColon b
    → a ++ b':' ∷ k ≡ b ++ b':' ∷ j
    → (a ≡ b) × (k ≡ j)
before_colon-injective [] [] k j h g e = (refl, cc)
before_colon-injective [] (y ∷ b) k j h (ne, g) e = absurd (ne (cc))
before_colon-injective (x ∷ a) [] k j (ne, h) g e = absurd (ne (cc))
before_colon-injective (x ∷ a) (y ∷ b) k j (_, h) (_, g) e =
    let (p, q) = before_colon-injective a b k j h g (cc) in (cc, q)

token_HasNoColon : HasNoColon algo_token_bucket
token_HasNoColon = omega arith

fixed_HasNoColon : HasNoColon algo_fixed_window
fixed_HasNoColon = omega arith

sliding_HasNoColon : HasNoColon algo_sliding_window
sliding_HasNoColon = omega arith

algorithm-HasNoColon : (l : Limit) → IsValidLimit l → HasNoColon l.algorithm
algorithm-HasNoColon l v = elim v.algorithm [
  | inl (e, _) ↦ subst HasNoColon (sym e) token_HasNoColon
  | inr (inl e, _) ↦ subst HasNoColon (sym e) fixed_HasNoColon
  | inr (inr e, _) ↦ subst HasNoColon (sym e) sliding_HasNoColon
]

-- Two valid limits with their keys have one state key only if they name one algorithm and one key.
state_key-injective :
    (l l' : Limit) (key key' : Text)
    → IsValidLimit l
    → IsValidLimit l'
    → state_key l key ≡ state_key l' key'
    → (l.algorithm ≡ l'.algorithm) × (key ≡ key')
state_key-injective l l' key key' v v' e =
    before_colon-injective l.algorithm l'.algorithm key key' (algorithm-HasNoColon l v)
      (algorithm-HasNoColon l' v') e

module _ (fl : Float) where
  open fl use {F}

  -- The algorithm that a bucket belongs to.
  abbrev pub kind : Bucket F → Text
  kind (fixed b) = algo_fixed_window
  kind (token b) = algo_token_bucket
  kind (sliding b) = algo_sliding_window

  -- Every bucket is stored under its own algorithm.
  abbrev pub IsKinded : List (Text × Bucket F) → Type 0
  IsKinded m = All (λ e. (key : Text) × (e.0 ≡ kind e.1 ++ b':' ∷ key)) m

  kind-HasNoColon : (b : Bucket F) → HasNoColon (kind b)
  kind-HasNoColon (fixed b) = fixed_HasNoColon
  kind-HasNoColon (token b) = token_HasNoColon
  kind-HasNoColon (sliding b) = sliding_HasNoColon

  step-kind :
      (l : Limit) (now : Time) (b b' : Bucket F) (d : Decision)
      → step fl l now b ≡ some (b', d)
      → kind b' ≡ kind b
  unfolding step
  step-kind l now (fixed b) b' d e = ground arith
  step-kind l now (token b) b' d e = ground arith
  step-kind l now (sliding b) b' d e = ground arith

  new_bucket-kind :
      (algorithm : Text) (b : Bucket F) → new_bucket fl algorithm ≡ some b → kind b ≡ algorithm
  unfolding new_bucket
  new_bucket-kind algorithm b e = ground (
    arith,
    text_eq_iff algorithm algo_fixed_window,
    text_eq_iff algorithm algo_token_bucket,
    text_eq_iff algorithm algo_sliding_window,
  )

  insert-IsKinded :
      (k : Text) (b : Bucket F) (m : List (Text × Bucket F)) (key : Text)
      → k ≡ kind b ++ b':' ∷ key
      → IsKinded m
      → IsKinded (insert text_eq k b m)
  insert-IsKinded k b [] key e h = ((key, e), tt)
  insert-IsKinded k b ((j, w) ∷ m) key e (h, hs) = elim (Bool-cases (text_eq j k)) [
    | inl same ↦ rw same ((key, e), hs)
    | inr other ↦ rw other (h, insert-IsKinded k b m key e hs)
  ]

  some_inj : {x y : Bucket F} → some x ≡ some y → x ≡ y
  some_inj e = cc

  lookup-kind :
      (k : Text) (b : Bucket F) (m : List (Text × Bucket F))
      → IsKinded m
      → lookup text_eq k m ≡ some b
      → (key : Text) × (k ≡ kind b ++ b':' ∷ key)
  lookup-kind k b [] h e = cc
  lookup-kind k b ((j, w) ∷ m) (h, hs) e = elim (Bool-cases (text_eq j k)) [
    | inl same ↦
        let found : w ≡ b = some_inj (rw same at e) in
        (h.0, sym ((text_eq_iff j k).0 same) ∙ (h.1 ∙ ap (λ x. kind x ++ b':' ∷ h.0) found))
    | inr other ↦ lookup-kind k b m hs (rw other at e)
  ]

  -- The bucket that a validated limit finds is of the limit's algorithm.
  found-kind :
      (l : Limit) (key : Text) (b : Bucket F) (m : List (Text × Bucket F))
      → IsValidLimit l
      → IsKinded m
      → lookup text_eq (state_key l key) m ≡ some b
      → kind b ≡ l.algorithm
  found-kind l key b m v h e =
      let (key', same) = lookup-kind (state_key l key) b m h e in
      sym (
        (before_colon-injective l.algorithm (kind b) key key' (algorithm-HasNoColon l v)
          (kind-HasNoColon b) same).0)

  store-IsKinded :
      (l : Limit) (key : Text) (now : Time) (m : MemoryLimiter F) (b : Bucket F)
      → IsValidLimit l
      → IsKinded m.state
      → kind b ≡ l.algorithm
      → IsKinded (store fl m (state_key l key) (step fl l now b)).0.state
  unfolding store
  store-IsKinded l key now m b v h e =
      let ((b', d), stepped) = step-some fl l now b v.rate in
      rw stepped (
        insert-IsKinded (state_key l key) b' m.state key
          (ap (λ a. a ++ b':' ∷ key) (sym (step-kind l now b b' d stepped ∙ e))) h)

  -- Under a valid limit, if every bucket is stored under its own algorithm then a call keeps it so,
  -- and the bucket that the request finds is of the request's algorithm.
  allow-IsKinded :
      (key : Text) (l : Limit) (now : Time) (m : MemoryLimiter F)
      → IsValidLimit l
      → IsKinded m.state
      → IsKinded (allow fl key l now m).0.state
        × ((b : Bucket F)
            → lookup text_eq (state_key l key) m.state ≡ some b
            → kind b ≡ l.algorithm)
  unfolding allow
  allow-IsKinded key l now m v h = (kept, λ b e. found-kind l key b m.state v h e)
    where
      kept : IsKinded (allow fl key l now m).0.state
      kept = elim (Option-cases (lookup text_eq (state_key l key) m.state)) [
        | inr (b, found) ↦
            rw (found, find)
              (store-IsKinded l key now m b v h (found-kind l key b m.state v h found))
        | inl new ↦ elim (Bool-cases (leb m.max_keys (length m.state))) [
          | inl full ↦ rw (new, find, full) h
          | inr room ↦
              let (b, made) = new_bucket-some fl l v in
              rw (new, find, room, made, start)
                (store-IsKinded l key now m b v h (new_bucket-kind l.algorithm b made))
        ]
      ]
