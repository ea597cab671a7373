-- ===== src/Limiter/Scripts/Zset.antt =====
-- A redis sorted set, as far as sliding_window.lua calls it. Redis is not this repository's: the set's
-- type and its commands are a parameter, with what the commands are documented to do as laws on the
-- ascending list of its scores. A list of scores with their nonces has them all.
use turnike.Common.{
  ℤ, pos, ltb_ℤ, ℕ, ltb, Bool, false, Option, List, [], ◌∷◌, keep, length, head?, last?, Text, ◌≡◌,
  if◌then◌else◌,
}

-- A score among ascending ones, after its equals.
unfoldable pub place : ℕ → List ℕ → List ℕ
place s [] = s ∷ []
place s (x ∷ xs) = if ltb s x then s ∷ x ∷ xs else x ∷ place s xs

-- A member is the accept time and the nonce that '%d-%s' prints.
abbrev pub Member : Type 0
Member = ℕ × Text

pub record Zset : Type 1 where
  pub Z : Type 0
  -- a key that does not exist
  pub absent : Z
  -- ZREMRANGEBYSCORE key -inf max
  pub trim : ℤ → Z → Z
  -- ZCARD
  pub card : Z → ℕ
  -- ZADD key score member, with the member's own time as the score
  pub add : Member → Z → Z
  -- the scores of ZRANGE key 0 0 and of ZRANGE key -1 -1
  pub oldest : Z → Option ℕ
  pub newest : Z → Option ℕ
  pub has : Member → Z → Bool
  pub scores : Z → List ℕ
  pub scores-absent : scores absent ≡ []
  pub scores-trim :
      (max : ℤ) (z : Z) → scores (trim max z) ≡ keep (λ s. ltb_ℤ max (pos s)) (scores z)
  pub card-scores : (z : Z) → card z ≡ length (scores z)
  pub scores-add : (m : Member) (z : Z) → has m z ≡ false → scores (add m z) ≡ place m.0 (scores z)
  pub oldest-scores : (z : Z) → oldest z ≡ head? (scores z)
  pub newest-scores : (z : Z) → newest z ≡ last? (scores z)
