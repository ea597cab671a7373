-- ===== src/Limiter/Scripts/Sliding/Cover.antt =====
-- internal/limiter/scripts/sliding_window.lua: the admissions that its log covers, under a clock that
-- is stepped back.
use turnike.Common.{
  pos, sub_ℕ, ltb_ℤ, ltb, leb, ℕ, ◌+◌, ◌≤◌, ◌<◌, Bool, true, ◌&&◌, List, [], ◌∷◌, ◌++◌, keep,
  keep-append, length, length-append, length-keep_mono, All, Text, ◌≡◌, refl, arith, if◌then◌else◌,
}
use turnike.Limiter.Scripts.Zset.{place}

-- A call of the script: the real time and what TIME reads then, the nonce, and whether the key has
-- expired since the last call.
pub record Call : Type 0 where
  pub real : ℕ
  pub clock : ℕ
  pub nonce : Text
  pub expired : Bool

-- Calls in order: the clock may be stepped back but gains nothing on real time, and the key expires
-- no sooner than a window after the last call's PEXPIRE.
unfoldable pub Paced : ℕ → Call → List Call → Type 0
Paced window last [] = Unit
Paced window last (c ∷ cs) =
    (last.real ≤ c.real)
    × (last.real + c.clock ≤ c.real + last.clock)
    × (c.expired ≡ true → last.clock + window ≤ c.clock)
    × Paced window c cs

-- Whether an admission at real time `t` still counts at `now`.
abbrev pub recent : ℕ → ℕ → ℕ → Bool
recent window now t = ltb now (t + window)

-- In the stretch of real time as long as the window that begins just after `c`.
abbrev pub between : ℕ → ℕ → ℕ → Bool
between window c t = ltb c t && leb t (c + window)

-- Whatever the clock reads from `real` and `clock` on, the log has as many live scores as there are
-- recent admissions.
unfoldable pub Covers : ℕ → ℕ → ℕ → List ℕ → List ℕ → Type 0
Covers window real clock history scores =
    (r k : ℕ)
    → real ≤ r
    → real + k ≤ r + clock
    → length (keep (recent window r) history) ≤ length (keep (recent window k) scores)

pub later-Covers :
    (w r k r' k' : ℕ) (h ss : List ℕ)
    → r ≤ r'
    → r + k' ≤ r' + k
    → Covers w r k h ss
    → Covers w r' k' h ss
unfolding Covers
later-Covers w r k r' k' h ss p q cover s j a b = cover s j (omega arith) (omega arith)

pub expired-Covers :
    (w r r' k' : ℕ) (h : List ℕ) → All (λ t. t ≤ r) h → r + w ≤ r' → Covers w r' k' h []
unfolding Covers
expired-Covers w r r' k' [] p q s j a b = omega arith
expired-Covers w r r' k' (t ∷ h) (p, ps) q s j a b =
    ground (arith, expired-Covers w r r' k' h ps q s j a b)

keep-keep {ℓ} :
    {A : Type ℓ} (p q : A → Bool) (xs : List A) → keep p (keep q xs) ≡ keep (λ x. q x && p x) xs
keep-keep p q [] = refl
keep-keep p q (x ∷ xs) = ground (arith, keep-keep p q xs)

-- A live score at the later of two readings is kept at the one, and live at the other.
live-both :
    (w k j x : ℕ)
    → recent w (if ltb j k then k else j) x ≡ true
    → ltb_ℤ (sub_ℕ k w) (pos x) && recent w j x ≡ true
live-both w k j x h = ground arith

pub trim-Covers :
    (w r k : ℕ) (h ss : List ℕ)
    → Covers w r k h ss
    → Covers w r k h (keep (λ x. ltb_ℤ (sub_ℕ k w) (pos x)) ss)
unfolding Covers
trim-Covers w r k h ss cover s j a b =
    let high = if ltb j k then k else j in
    let le = cover s high a (ground arith) in
    let kept =
      length-keep_mono (recent w high) (λ x. ltb_ℤ (sub_ℕ k w) (pos x) && recent w j x) ss
        (live-both w k j) in
    rw (keep-keep (recent w j) (λ x. ltb_ℤ (sub_ℕ k w) (pos x)) ss) (omega (arith, le, kept))

length-keep-place :
    (p : ℕ → Bool) (s : ℕ) (xs : List ℕ)
    → length (keep p (place s xs)) ≡ (if p s then 1 else 0) + length (keep p xs)
unfolding place
length-keep-place p s [] = ground arith
length-keep-place p s (x ∷ xs) = ground (arith, length-keep-place p s xs)

pub add-Covers :
    (w r k : ℕ) (h ss : List ℕ) → Covers w r k h ss → Covers w r k (h ++ r ∷ []) (place k ss)
unfolding Covers
add-Covers w r k h ss cover s j a b = ground (
  arith,
  cover s j a b,
  length-keep-place (recent w j) k ss,
  keep-append (recent w s) h (r ∷ []),
  length-append (keep (recent w s) h) (keep (recent w s) (r ∷ [])),
)

-- Whatever shares a stretch with the new admission still counts when it comes.
pub between-append :
    (w n c r : ℕ) (h : List ℕ)
    → length (keep (recent w r) h) < n
    → length (keep (between w c) h) ≤ n
    → length (keep (between w c) (h ++ r ∷ [])) ≤ n
between-append w n c r h room le = ground (
  arith,
  le,
  room,
  length-keep_mono (between w c) (recent w r) h,
  keep-append (between w c) h (r ∷ []),
  length-append (keep (between w c) h) (keep (between w c) (r ∷ [])),
)
