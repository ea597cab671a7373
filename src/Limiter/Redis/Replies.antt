-- ===== src/Limiter/Redis/Replies.antt =====
-- internal/limiter/redis.go: what a decision of redis's own has of the script's reply.
use turnike.Common.{
  ℤ, pos, pos_part, neg_part, ◌+ℤ◌, ◌-ℤ◌, +ℤ_parts, -ℤ_parts, ◌*◌, true, false, List, [], ◌∷◌,
  text_eq_iff, Result, ok, ◌≡◌, ◌≢◌, ◌↔◌, refl, arith,
}
use turnike.Config.{Limit, algo_token_bucket}
use turnike.Limiter.{Decision}
use turnike.Limiter.Redis.{CallError, limit_of, times_1000, epoch, decision_from_reply}

-- As many nanoseconds as the other has microseconds.
abbrev pub IsThousandfold : ℤ → ℤ → Type 0
IsThousandfold ns us = (pos_part ns ≡ 1000 * pos_part us) × (neg_part ns ≡ 1000 * neg_part us)

-- The reply is four numbers: a 1 for an admission, the remainder, the reset in microseconds of Unix
-- time, and the wait in microseconds.
pub record Reads (l : Limit) (reply : Result CallError (List ℤ)) (d : Decision) : Type 0 where
  pub admission : ℤ
  pub left : ℤ
  pub reset_us : ℤ
  pub retry_us : ℤ
  pub replied : reply ≡ ok (admission ∷ left ∷ reset_us ∷ retry_us ∷ [])
  pub allowed : (d.allowed ≡ true) ↔ (admission ≡ pos 1)
  pub burst : l.algorithm ≡ algo_token_bucket → d.limit ≡ l.burst
  pub rate : l.algorithm ≢ algo_token_bucket → d.limit ≡ l.rate
  pub remaining : d.remaining ≡ left
  pub reset : IsThousandfold (d.reset -ℤ epoch) reset_us
  pub retry_after : IsThousandfold d.retry_after retry_us

times_1000-IsThousandfold : (us : ℤ) → IsThousandfold (times_1000 us) us
unfolding times_1000
times_1000-IsThousandfold us = ground arith

since_epoch : (us : ℤ) → IsThousandfold ((epoch +ℤ times_1000 us) -ℤ epoch) us
since_epoch us = ground (
  arith,
  times_1000-IsThousandfold us,
  +ℤ_parts epoch (times_1000 us),
  -ℤ_parts (epoch +ℤ times_1000 us) epoch,
)

-- Four numbers are a decision, which is not marked as degraded and reads them.
pub decision_from_reply-Reads :
    (l : Limit) (a b c e : ℤ)
    → (d : Decision) × (decision_from_reply (a ∷ b ∷ c ∷ e ∷ []) (limit_of l) ≡ ok d)
      × (d.degraded ≡ false)
      × Reads l (ok (a ∷ b ∷ c ∷ e ∷ [])) d
unfolding decision_from_reply
decision_from_reply-Reads l a b c e = (
  _,
  refl,
  refl,
  record {
    admission = a;
    left = b;
    reset_us = c;
    retry_us = e;
    replied = refl;
    allowed = ground arith;
    burst = λ h. ground (arith, text_eq_iff l.algorithm algo_token_bucket, h);
    rate = λ h. ground (arith, text_eq_iff l.algorithm algo_token_bucket, h);
    remaining = refl;
    reset = since_epoch c;
    retry_after = times_1000-IsThousandfold e;
  },
)
