-- ===== src/Limiter/Scripts/Sliding/Quota.antt =====
-- internal/limiter/scripts/sliding_window.lua: the quota in real time under a clock that is stepped
-- back.
use mathlib.Core.List.{append_assoc, append-nil}
use turnike.Common.{
  sub_ℕ, ltb, ℕ, ◌≤◌, Bool, true, false, List, [], ◌∷◌, ◌++◌, keep, length, length-keep-le, All,
  All-append, ◌≡◌, refl, sym, ◌∙◌, arith, if◌then◌else◌, Bool-cases, inl, inr,
}
use turnike.Limiter.Scripts.Zset.{Zset, Member, place}
use turnike.Limiter.Scripts.Sliding.{trimmed, script}
use turnike.Limiter.Scripts.Sliding.Cover.{
  Call, Paced, Covers, recent, between, later-Covers, expired-Covers, trim-Covers, add-Covers,
  between-append,
}

module _ (zs : Zset) (rate window : ℕ) where
  open zs use {
    Z, absent, card, has, scores, scores-absent, scores-trim, scores-add, card-scores, add,
  }

  unfoldable pub found : Call → Z → Z
  found c z = if c.expired then absent else z

  -- The real times of the calls that are admitted.
  unfoldable pub admitted : Z → List Call → List ℕ
  unfolding found
  admitted z [] = []
  admitted z (c ∷ cs) =
      let out = script zs rate window c.nonce c.clock (found c z) in
      let rest = admitted out.0 cs in if out.1.allowed then c.real ∷ rest else rest

  -- No call has the time and the nonce of an entry in the log.
  unfoldable pub Fresh : Z → List Call → Type 0
  unfolding found
  Fresh z [] = Unit
  Fresh z (c ∷ cs) =
      (has (c.clock, c.nonce) (trimmed zs window c.clock (found c z)) ≡ false)
      × Fresh (script zs rate window c.nonce c.clock (found c z)).0 cs

  -- The scores that the script counts for a call.
  counted : Call → Z → List ℕ
  unfolding found
  counted c z = scores (trimmed zs window c.clock (found c z))

  place_if :
      (b : Bool) (m : Member) (z : Z)
      → has m z ≡ false
      → scores (if b then add m z else z) ≡ (if b then place m.0 (scores z) else scores z)
  place_if true m z h = scores-add m z h
  place_if false m z h = refl

  script-scores :
      (c : Call) (z : Z)
      → has (c.clock, c.nonce) (trimmed zs window c.clock (found c z)) ≡ false
      → let out = script zs rate window c.nonce c.clock (found c z) in
        let allowed = ltb (length (counted c z)) rate in
        (out.1.allowed ≡ allowed)
        × (scores out.0 ≡ (if allowed then place c.clock (counted c z) else counted c z))
  unfolding script counted
  script-scores c z h =
      let kept = trimmed zs window c.clock (found c z) in
      rw (sym (card-scores kept)) (refl, place_if (ltb (card kept) rate) (c.clock, c.nonce) kept h)

  counted-Covers :
      (last c : Call) (z : Z) (h : List ℕ)
      → Paced window last (c ∷ [])
      → All (λ t. t ≤ last.real) h
      → Covers window last.real last.clock h (scores z)
      → Covers window c.real c.clock h (counted c z)
  unfolding Paced counted found
  counted-Covers last c z h (order, drift, life, _) past cover =
      rw (scores-trim (sub_ℕ c.clock window) (if c.expired then absent else z)) (
        trim-Covers window c.real c.clock h (scores (if c.expired then absent else z))
          (elim (Bool-cases c.expired) [
            | inl gone ↦
                rw (gone, scores-absent)
                  (expired-Covers window last.real c.real c.clock h past
                    (omega (arith, life gone, drift)))
            | inr there ↦ rw there (
                later-Covers window last.real last.clock c.real c.clock h (scores z) order drift
                  cover)
          ]))

  older : (r r' : ℕ) (h : List ℕ) → r ≤ r' → All (λ t. t ≤ r) h → All (λ t. t ≤ r') h
  older r r' [] order past = past
  older r r' (t ∷ h) order (p, past) = (omega (arith, p, order), older r r' h order past)

  -- The log after a call that is admitted, and after one that is denied.
  admit-Covers :
      (c : Call) (z : Z) (h : List ℕ)
      → has (c.clock, c.nonce) (trimmed zs window c.clock (found c z)) ≡ false
      → ltb (length (counted c z)) rate ≡ true
      → Covers window c.real c.clock h (counted c z)
      → let out = script zs rate window c.nonce c.clock (found c z) in
        (out.1.allowed ≡ true) × Covers window c.real c.clock (h ++ c.real ∷ []) (scores out.0)
  admit-Covers c z h new free cover =
      let (allowed, log) = script-scores c z new in
      (allowed ∙ free, rw (log, free) (add-Covers window c.real c.clock h (counted c z) cover))

  deny-Covers :
      (c : Call) (z : Z) (h : List ℕ)
      → has (c.clock, c.nonce) (trimmed zs window c.clock (found c z)) ≡ false
      → ltb (length (counted c z)) rate ≡ false
      → Covers window c.real c.clock h (counted c z)
      → let out = script zs rate window c.nonce c.clock (found c z) in
        (out.1.allowed ≡ false) × Covers window c.real c.clock h (scores out.0)
  deny-Covers c z h new full cover =
      let (allowed, log) = script-scores c z new in (allowed ∙ full, rw (log, full) cover)

  recent-counted :
      (c : Call) (z : Z) (h : List ℕ)
      → Covers window c.real c.clock h (counted c z)
      → length (keep (recent window c.real) h) ≤ length (counted c z)
  unfolding Covers
  recent-counted c z h cover = omega (
    arith,
    cover c.real c.clock (omega arith) (omega arith),
    length-keep-le (recent window c.clock) (counted c z),
  )

  admitted-within :
      (from : ℕ) (last : Call) (z : Z) (h : List ℕ) (cs : List Call)
      → Paced window last cs
      → Fresh z cs
      → All (λ t. t ≤ last.real) h
      → Covers window last.real last.clock h (scores z)
      → length (keep (between window from) h) ≤ rate
      → length (keep (between window from) (h ++ admitted z cs)) ≤ rate
  unfolding admitted Paced Fresh
  admitted-within from last z h [] paced fresh past cover le = rw (append-nil h) le
  admitted-within from last z h (c ∷ cs) (order, drift, life, paced) (new, fresh) past cover le =
      let out = script zs rate window c.nonce c.clock (found c z) in
      let covered = counted-Covers last c z h (order, drift, life, tt) past cover in
      let old = older last.real c.real h order past in
      elim (Bool-cases (ltb (length (counted c z)) rate)) [
        | inl free ↦
            let (allowed, after) = admit-Covers c z h new free covered in
            let seen =
              between-append window rate from c.real h
                (ground (arith, recent-counted c z h covered, free)) le in
            let ih =
              admitted-within from c out.0 (h ++ c.real ∷ []) cs paced fresh
                (All-append (λ t. t ≤ c.real) h (c.real ∷ []) old (omega arith, tt)) after seen in
            rw allowed (rw (append_assoc h (c.real ∷ [])) at ih)
        | inr full ↦
            let (allowed, after) = deny-Covers c z h new full covered in
            rw allowed (admitted-within from c out.0 h cs paced fresh old after le)
      ]

  -- From an instant `start` on at which there is no key, the calls that are admitted in any stretch
  -- of real time as long as the window are at most `rate`, when the clock gains nothing on real time
  -- but may be stepped back, the key stays for a window after each call, and no nonce is
  -- used twice.
  pub admitted-quota :
      (from : ℕ) (start : Call) (cs : List Call)
      → Paced window start cs
      → Fresh absent cs
      → length (keep (between window from) (admitted absent cs)) ≤ rate
  unfolding Covers
  admitted-quota from start cs paced fresh =
      admitted-within from start absent [] cs paced fresh tt (λ r k a b. omega arith) (omega arith)
