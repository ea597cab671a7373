-- ===== src/Limiter/Scripts/Units.antt =====
-- internal/limiter/scripts: redis's microseconds as the memory backend's nanoseconds.
use turnike.Common.{pos, sub_ℕ, ◌+ℤ◌, ◌-ℤ◌, ltb_ℤ, ltb, ℕ, suc, ◌+◌, ◌-◌, ◌*◌, ◌≡◌, arith}
use turnike.Limiter.{Time, clamp}
use turnike.Limiter.Redis.{epoch, times_1000}

-- The Unix epoch in microseconds since Go's zero time.
abbrev pub epoch_us : ℕ
epoch_us = 62135596800000000

-- redis TIME as an instant.
abbrev pub at : ℕ → Time
at us = pos ((epoch_us + us) * 1000)

pub remaining_eq : (rate count : ℕ) → pos (rate - count) ≡ clamp (pos rate -ℤ pos count)
unfolding ◌-ℤ◌
remaining_eq rate count = ground arith

pub remaining_next : (rate seen : ℕ) → pos (rate - (seen + 1)) ≡ clamp (pos rate -ℤ pos (suc seen))
unfolding ◌-ℤ◌
remaining_next rate seen = ground arith

pub reset_eq : (ws w : ℕ) → epoch +ℤ times_1000 (pos (ws + w)) ≡ at ws +ℤ pos (w * 1000)
unfolding ◌+ℤ◌ times_1000
reset_eq ws w = ground arith

pub retry_eq : (ws w now : ℕ) → times_1000 (sub_ℕ (ws + w) now) ≡ at ws +ℤ pos (w * 1000) -ℤ at now
unfolding ◌+ℤ◌ ◌-ℤ◌ times_1000
retry_eq ws w now = ground arith

pub ltb_eq : (a b : ℕ) → ltb_ℤ (pos a) (pos b) ≡ ltb a b
ltb_eq a b = ground arith
