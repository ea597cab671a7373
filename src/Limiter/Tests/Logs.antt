-- ===== src/Limiter/Tests/Logs.antt =====
-- The redis scripts at concrete input, over a sorted set that is a list.
use mathlib.Core.List.{map}
use turnike.Common.{
  pos, ltb_ℤ, ℕ, ltb, none, ◌==◌, ◌≤◌, Bool, true, false, ◌&&◌, ◌||◌, List, [], ◌∷◌, keep, length,
  head?, last?, text_eq, codes, ◌≡◌, refl, arith, if◌then◌else◌,
}
use turnike.Limiter.Scripts.Zset.{Zset, Member, place}
use turnike.Limiter.Scripts.Fixed.{script}
use turnike.Limiter.FixedWindow.{empty}
use turnike.Limiter.Scripts.Fixed.Parity.{
  limit_of, InOrder, scripted, in_memory, scripted-in_memory,
}
use turnike.Limiter.Scripts.Fixed.Quota.{Over, ends, Kept, ends-quota}
use turnike.Limiter.Scripts.Sliding.Cover.{Call, Paced, between}
use turnike.Limiter.SlidingWindow
use turnike.Limiter.Scripts.Sliding.Quota
use turnike.Limiter.Scripts.Sliding.Parity
use turnike.Limiter.Scripts.Sliding.Runs
use turnike.Limiter.Scripts.Sliding.Quota.{admitted, Fresh, admitted-quota}

-- A member after its equals in time.
insert : Member → List Member → List Member
insert m [] = m ∷ []
insert m (x ∷ xs) = if ltb m.0 x.0 then m ∷ x ∷ xs else x ∷ insert m xs

abbrev has : Member → List Member → Bool
has m [] = false
has m (x ∷ xs) = (m.0 == x.0) && text_eq m.1 x.1 || has m xs

abbrev times : List Member → List ℕ
times = map (λ m. m.0)

times-insert : (m : Member) (z : List Member) → times (insert m z) ≡ place m.0 (times z)
unfolding insert place
times-insert m [] = refl
times-insert m (x ∷ xs) = ground (arith, times-insert m xs)

times-keep : (p : ℕ → Bool) (z : List Member) → times (keep (λ m. p m.0) z) ≡ keep p (times z)
times-keep p [] = refl
times-keep p (x ∷ xs) = ground (arith, times-keep p xs)

times-add :
    (m : Member) (z : List Member)
    → has m z ≡ false
    → times (if has m z then z else insert m z) ≡ place m.0 (times z)
times-add m z h = rw h (times-insert m z)

length-times : (z : List Member) → length z ≡ length (times z)
length-times [] = refl
length-times (x ∷ xs) = omega (arith, length-times xs)

abbrev log : Zset
log = record {
  Z = List Member;
  absent = [];
  trim = λ max z. keep (λ m. ltb_ℤ max (pos m.0)) z;
  card = length;
  add = λ m z. if has m z then z else insert m z;
  oldest = λ z. head? (times z);
  newest = λ z. last? (times z);
  has = has;
  scores = times;
  scores-absent = refl;
  scores-trim = λ max z. times-keep (λ s. ltb_ℤ max (pos s)) z;
  card-scores = length-times;
  scores-add = times-add;
  oldest-scores = λ z. refl;
  newest-scores = λ z. refl;
}

-- The clock is stepped back by four after the first call.
abbrev calls : List Call
calls =
    record { real = 10; clock = 10; nonce = codes "a"; expired = false }
    ∷ record { real = 12; clock = 8; nonce = codes "b"; expired = false }
    ∷ record { real = 15; clock = 11; nonce = codes "c"; expired = false }
    ∷ record { real = 21; clock = 17; nonce = codes "d"; expired = false }
    ∷ record { real = 23; clock = 19; nonce = codes "e"; expired = false }
    ∷ []

abbrev opening : Call
opening = record { real = 0; clock = 0; nonce = []; expired = false }

admitted_here : admitted log 2 10 [] calls ≡ 10 ∷ 12 ∷ 23 ∷ []
unfolding admitted turnike.Limiter.Scripts.Sliding.script insert
admitted_here = refl

calls-Paced : Paced 10 opening calls
unfolding Paced
calls-Paced = ground arith

calls-Fresh : Fresh log 2 10 [] calls
unfolding Fresh turnike.Limiter.Scripts.Sliding.script insert
calls-Fresh = (refl, (refl, (refl, (refl, (refl, tt)))))

admitted-quota_example : length (keep (between 10 9) (admitted log 2 10 [] calls)) ≤ 2
admitted-quota_example = admitted-quota log 2 10 9 opening calls calls-Paced calls-Fresh

-- Readings that go back over the end of a window.
abbrev readings : List (ℕ × Bool)
readings = (8, false) ∷ (12, false) ∷ (9, false) ∷ (13, false) ∷ (21, true) ∷ (19, false) ∷ []

readings-Kept : Kept 2 10 none readings
unfolding Kept script Over
readings-Kept = (tt, (tt, (tt, (tt, (omega arith, (tt, tt))))))

ends-quota_example : length (keep (λ e. 20 == e) (ends 2 10 none readings)) ≤ 2
ends-quota_example = ends-quota 2 10 20 readings (omega arith) readings-Kept

ends_here : ends 2 10 none readings ≡ 10 ∷ 20 ∷ 20 ∷ 30 ∷ 30 ∷ []
unfolding ends script
ends_here = refl

abbrev ordered : List (ℕ × Bool)
ordered = (8, false) ∷ (12, false) ∷ (13, false) ∷ (14, false) ∷ (21, true) ∷ (29, false) ∷ []

ordered-Kept : Kept 2 10 none ordered
unfolding Kept script Over
ordered-Kept = (tt, (tt, (tt, (tt, (omega arith, (tt, tt))))))

ordered-InOrder : InOrder ordered
ordered-InOrder = ground arith

scripted-in_memory_example : scripted 2 10 none ordered ≡ in_memory (limit_of 2 10) empty ordered
scripted-in_memory_example =
    scripted-in_memory 2 10 ordered (omega arith) (omega arith) refl ordered-InOrder ordered-Kept

abbrev forward : List Call
forward =
    record { real = 0; clock = 10; nonce = codes "a"; expired = false }
    ∷ record { real = 0; clock = 12; nonce = codes "b"; expired = false }
    ∷ record { real = 0; clock = 15; nonce = codes "c"; expired = false }
    ∷ record { real = 0; clock = 21; nonce = codes "d"; expired = false }
    ∷ record { real = 0; clock = 31; nonce = codes "e"; expired = true }
    ∷ []

forward-InOrder : Runs.InOrder 10 opening forward
unfolding Runs.InOrder
forward-InOrder = ground arith

forward-Fresh : Fresh log 2 10 [] forward
unfolding Fresh turnike.Limiter.Scripts.Sliding.script insert Quota.found
forward-Fresh = (refl, (refl, (refl, (refl, (refl, tt)))))

scripted-in_memory_log_example :
    Runs.scripted log 2 10 [] forward
    ≡ Runs.in_memory (Parity.limit_of 2 10) SlidingWindow.empty forward
scripted-in_memory_log_example =
    Runs.scripted-in_memory_log log 2 10 opening forward (omega arith) forward-InOrder forward-Fresh
