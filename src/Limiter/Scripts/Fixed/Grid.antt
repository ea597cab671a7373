-- ===== src/Limiter/Scripts/Fixed/Grid.antt =====
-- internal/limiter/scripts/fixed_window.lua and fixed_window.go: the grids of windows from the Unix
-- epoch and from Go's zero time, where they agree.
use native.Mathlib.Decide.{dec_lt}
use native.Mathlib.Nat.{mod-le, mod-lt, mul-mod_left, div-add-mod'}
use turnike.Common.{
  pos, ℕ, ◌+◌, ◌*◌, ◌/◌, ◌%◌, ◌≤◌, ◌<◌, ◌≡◌, ap, ◌∙◌, arith, floor_to, floor_to_eq,
}
use turnike.Limiter.{truncate}
use turnike.Limiter.FixedWindow.Quota.{truncate-pos}
use turnike.Limiter.Scripts.Units.{epoch_us, at}

floor_to-multiple : (q d : ℕ) → floor_to (q * d) d ≡ q * d
floor_to-multiple q d = omega (arith, mul-mod_left q d)

distribute : (p q w : ℕ) → (p * w + q * w) * 1000 ≡ (p + q) * (w * 1000)
distribute p q w = omega arith

-- Two multiples of `w`, in units that are a thousandth.
sum-multiple : (a b w : ℕ) → a % w ≡ 0 → b % w ≡ 0 → (a + b) * 1000 ≡ (a / w + b / w) * (w * 1000)
sum-multiple a b w h k =
    let a_eq = div-add-mod' a w in
    let b_eq = div-add-mod' b w in
    let spread = distribute (a / w) (b / w) w in omega (arith, a_eq, b_eq, spread, h, k)

floor_to-div : (n w : ℕ) → floor_to n w ≡ n / w * w
floor_to-div n w = let n_eq = div-add-mod' n w in omega (arith, n_eq)

floor_to-mod : (n w : ℕ) → floor_to n w % w ≡ 0
floor_to-mod n w = rw (floor_to-div n w) (mul-mod_left (n / w) w)

grid :
    (e n w : ℕ)
    → 0 < w
    → e % w ≡ 0
    → floor_to ((e + n) * 1000) (w * 1000) ≡ (e + floor_to n w) * 1000
grid e n w p h =
    let low = (e + floor_to n w) * 1000 in
    let multiple = sum-multiple e (floor_to n w) w h (floor_to-mod n w) in
    let fixed : floor_to low (w * 1000) ≡ low =
      rw multiple (floor_to-multiple (e / w + floor_to n w / w) (w * 1000)) in
    floor_to_eq low ((e + n) * 1000) (w * 1000) (omega arith) (omega (arith, fixed, mod-le n w))
      (omega (arith, fixed, mod-lt n p, mod-le n w))
    ∙ fixed

pub truncate-at :
    (n w : ℕ) → 0 < w → epoch_us % w ≡ 0 → truncate (at n) (pos (w * 1000)) ≡ at (floor_to n w)
truncate-at n w p h =
    truncate-pos ((epoch_us + n) * 1000) (w * 1000) (omega arith) ∙ ap pos (grid epoch_us n w p h)

pub floor_to_mono : (n m w : ℕ) → 0 < w → n ≤ m → floor_to n w ≤ floor_to m w
floor_to_mono n m w p h = elim (dec_lt m (floor_to n w + w)) [
  | yes low ↦
      let same = floor_to_eq n m w p (omega (arith, mod-le n w, h)) low in omega (arith, same)
  | no high ↦ omega (arith, high, mod-lt m p, mod-le m w)
]
