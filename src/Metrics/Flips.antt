-- ===== src/Metrics/Flips.antt =====
-- internal/metrics/metrics.go: SetActiveBackend called by many decisions at once. A goroutine holds
-- backendMu (sync.Mutex) over both writes of the gauge; a scrape may read between any two steps.
use turnike.Common.{
  ℕ, Option, none, some, List, [], ◌∷◌, Text, text_eq, ◌≡◌, inl, inr, refl, if◌then◌else◌, insert,
  subst,
}
use turnike.Config.{backend_redis, backend_memory}
use turnike.Metrics.{backends, new_metrics}
use turnike.Metrics.Gauges.{IsBackend, IsOneHot}

-- The goroutine that holds the mutex: the backend that it marks, and the series that it has yet to
-- write.
pub record Holder : Type 0 where
  pub active : Text
  pub left : List Text

-- `last` is the backend of the last call that unlocked.
pub record Flips : Type 0 where
  pub gauge : List (Text × ℕ)
  pub holder : Option Holder
  pub last : Option Text

abbrev pub before_flips : Flips
before_flips = record { gauge = new_metrics.limiter_backend; holder = none; last = none }

-- The body of the loop.
unfoldable pub write_series : Text → Text → List (Text × ℕ) → List (Text × ℕ)
write_series active b g = insert text_eq b (if text_eq b active then 1 else 0) g

-- A call locks a free mutex, the holder writes its next series, or unlocks after the last.
pub data Step (s : Flips) : Flips → Type 0 where
  locks :
      (active : Text)
      → IsBackend active
      → s.holder ≡ none
      → Step s (record s { holder = some (record { active = active; left = backends }) })
  writes :
      (active b : Text) (bs : List Text)
      → s.holder ≡ some (record { active = active; left = b ∷ bs })
      → Step s (record s {
        gauge = write_series active b s.gauge;
        holder = some (record { active = active; left = bs });
      })
  unlocks :
      (active : Text)
      → s.holder ≡ some (record { active = active; left = [] })
      → Step s (record s { holder = none; last = some active })

pub data Reach (s : Flips) : Flips → Type 0 where
  here : Reach s s
  next : {t u : Flips} → Reach s t → Step t u → Reach s u

-- The gauge has its two series.
abbrev IsPair : List (Text × ℕ) → Type 0
IsPair g = (a : ℕ) × (b : ℕ) × (g ≡ (backend_redis, a) ∷ (backend_memory, b) ∷ [])

-- What the gauge shows while no call holds the mutex.
abbrev pub Shows : Option Text → List (Text × ℕ) → Type 0
Shows none g = g ≡ new_metrics.limiter_backend
Shows (some active) g = IsOneHot active g

-- How far the holder is, by the series that it has yet to write.
abbrev Progress : Text → List (Text × ℕ) → List Text → Type 0
Progress active g [] = IsOneHot active g
Progress active g (b ∷ []) =
    (b ≡ backend_memory)
    × ((n : ℕ) × (g
          ≡ (backend_redis, if text_eq backend_redis active then 1 else 0)
            ∷ (backend_memory, n)
            ∷ []))
Progress active g (b ∷ c ∷ []) = (b ≡ backend_redis) × (c ≡ backend_memory) × IsPair g
Progress active g (b ∷ c ∷ d ∷ bs) = ⊥

abbrev Sound : List (Text × ℕ) → Option Text → Option Holder → Type 0
Sound g last none = Shows last g
Sound g last (some h) = IsBackend h.active × Progress h.active g h.left

Shows-IsPair : (last : Option Text) (g : List (Text × ℕ)) → Shows last g → IsPair g
Shows-IsPair none g h = (0, 0, h)
Shows-IsPair (some active) g (inl (_, p)) = (1, 0, p)
Shows-IsPair (some active) g (inr (_, p)) = (0, 1, p)

write_redis :
    (active : Text) (g : List (Text × ℕ))
    → IsPair g
    → (n : ℕ) × (write_series active backend_redis g
        ≡ (backend_redis, if text_eq backend_redis active then 1 else 0) ∷ (backend_memory, n) ∷ [])
unfolding write_series text_eq
write_redis active g (a, b, p) = (b, rw p refl)

write_memory :
    (active : Text) (n : ℕ)
    → IsBackend active
    → IsOneHot active (
        write_series active backend_memory (
          (backend_redis, if text_eq backend_redis active then 1 else 0)
          ∷ (backend_memory, n)
          ∷ []))
unfolding write_series text_eq
write_memory active n (inl e) = inl (e, rw e refl)
write_memory active n (inr e) = inr (e, rw e refl)

write-Progress :
    (active b : Text) (bs : List Text) (g : List (Text × ℕ))
    → IsBackend active
    → Progress active g (b ∷ bs)
    → Progress active (write_series active b g) bs
write-Progress active b [] g known (e, (n, p)) = rw (e, p) (write_memory active n known)
write-Progress active b (c ∷ []) g known (e, f, pair) = (f, rw e (write_redis active g pair))
write-Progress active b (c ∷ d ∷ bs) g known h = absurd h

Step-Sound :
    (s t : Flips) → Step s t → Sound s.gauge s.last s.holder → Sound t.gauge t.last t.holder
Step-Sound s t (locks active known free) h =
    (known, (refl, refl, Shows-IsPair s.last s.gauge (subst (Sound s.gauge s.last) free h)))
Step-Sound s t (writes active b bs held) h =
    let (known, progress) = subst (Sound s.gauge s.last) held h in
    (known, write-Progress active b bs s.gauge known progress)
Step-Sound s t (unlocks active held) h = (subst (Sound s.gauge s.last) held h).1

Reach-Sound : (s : Flips) → Reach before_flips s → Sound s.gauge s.last s.holder
Reach-Sound s here = refl
Reach-Sound s (next {t = t} r step) = Step-Sound t s step (Reach-Sound t r)

-- However calls of SetActiveBackend interleave: whenever none of them holds the mutex, the gauge is
-- 1 for the backend that the last one to unlock named and 0 for the other, or 0 for both before the
-- first.
pub Reach-Shows : (s : Flips) → Reach before_flips s → s.holder ≡ none → Shows s.last s.gauge
Reach-Shows s r free = subst (Sound s.gauge s.last) free (Reach-Sound s r)
