-- ===== src/Limiter/Scripts/Sliding.antt =====
-- internal/limiter/scripts/sliding_window.lua.
pub mod Cover
pub mod Quota
pub mod Parity
pub mod Runs
use turnike.Common.{
  ℤ, pos, sub_ℕ, ltb, ℕ, suc, ◌+◌, ◌-◌, Bool, Option, none, some, Text, if◌then◌else◌,
}
use turnike.Limiter.Scripts.{Reply}
use turnike.Limiter.Scripts.Zset.{Zset, Member}

unfoldable pub end_of : ℕ → ℕ → Option ℕ → ℕ
end_of window now none = now
end_of window now (some newest) = newest + window

unfoldable pub wait_for : ℕ → ℕ → Option ℕ → ℤ
wait_for window now none = pos 0
wait_for window now (some oldest) = sub_ℕ (oldest + window) now

module _ (zs : Zset) where
  open zs use {Z, trim, card, add, oldest, newest}

  -- The log is trimmed before every decision.
  abbrev pub trimmed : ℕ → ℕ → Z → Z
  trimmed window now z = trim (sub_ℕ now window) z

  abbrev pub allows : ℕ → Z → Bool
  allows rate kept = ltb (card kept) rate

  -- The script, but for PEXPIRE: that the key may be gone once its time has passed is the caller's.
  unfoldable pub script : (rate : ℕ) → (window : ℕ) → (nonce : Text) → (now : ℕ) → Z → Z × Reply
  unfolding end_of wait_for
  script rate window nonce now z =
      let kept = trimmed window now z in
      let allowed = allows rate kept in
      let log = if allowed then add (now, nonce) kept else kept in
      let count = if allowed then suc (card kept) else card kept in
      (
        log,
        record {
          allowed = allowed;
          remaining = rate - count;
          reset = end_of window now (newest log);
          retry = if allowed then pos 0 else wait_for window now (oldest log);
        },
      )
