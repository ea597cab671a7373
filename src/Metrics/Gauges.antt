-- ===== src/Metrics/Gauges.antt =====
-- internal/metrics/metrics.go: SetActiveBackend and the backend gauge.
use turnike.Common.{ℕ, All, List, [], ◌∷◌, Text, text_eq, ◌≡◌, ◌⊎◌, inl, inr, refl}
use turnike.Config.{backend_redis, backend_memory}
use turnike.Metrics.{Metrics, new_metrics, set_active_backend, set_series}

-- One backend at 1 and the other at 0.
abbrev pub IsOneHot : Text → List (Text × ℕ) → Type 0
IsOneHot active g =
    ((active ≡ backend_redis) × (g ≡ (backend_redis, 1) ∷ (backend_memory, 0) ∷ []))
    ⊎ ((active ≡ backend_memory) × (g ≡ (backend_redis, 0) ∷ (backend_memory, 1) ∷ []))

-- The two series, with any values.
abbrev IsPair : List (Text × ℕ) → Type 0
IsPair g = (a : ℕ) × (b : ℕ) × (g ≡ (backend_redis, a) ∷ (backend_memory, b) ∷ [])

set_redis :
    (m : Metrics) (a b : ℕ)
    → m.limiter_backend ≡ (backend_redis, a) ∷ (backend_memory, b) ∷ []
    → (set_active_backend backend_redis m).limiter_backend
      ≡ (backend_redis, 1) ∷ (backend_memory, 0) ∷ []
unfolding set_active_backend set_series text_eq
set_redis m a b h = rw h

set_memory :
    (m : Metrics) (a b : ℕ)
    → m.limiter_backend ≡ (backend_redis, a) ∷ (backend_memory, b) ∷ []
    → (set_active_backend backend_memory m).limiter_backend
      ≡ (backend_redis, 0) ∷ (backend_memory, 1) ∷ []
unfolding set_active_backend set_series text_eq
set_memory m a b h = rw h

-- The backends that decisions name, the last one first.
set_all : List Text → Metrics → Metrics
set_all [] m = m
set_all (active ∷ before) m = set_active_backend active (set_all before m)

abbrev pub IsBackend : Text → Type 0
IsBackend b = (b ≡ backend_redis) ⊎ (b ≡ backend_memory)

set_active_backend-IsOneHot :
    (active : Text) (m : Metrics)
    → IsBackend active
    → IsPair m.limiter_backend
    → IsOneHot active (set_active_backend active m).limiter_backend
set_active_backend-IsOneHot active m (inl e) (a, b, p) = inl (e, rw e (set_redis m a b p))
set_active_backend-IsOneHot active m (inr e) (a, b, p) = inr (e, rw e (set_memory m a b p))

IsOneHot-IsPair : (active : Text) (g : List (Text × ℕ)) → IsOneHot active g → IsPair g
IsOneHot-IsPair active g (inl (_, p)) = (1, 0, p)
IsOneHot-IsPair active g (inr (_, p)) = (0, 1, p)

set_all-IsPair :
    (bs : List Text) → All IsBackend bs → IsPair (set_all bs new_metrics).limiter_backend
unfolding set_all
set_all-IsPair [] h = (0, 0, refl)
set_all-IsPair (b ∷ bs) (h, hs) =
    IsOneHot-IsPair b _
      (set_active_backend-IsOneHot b (set_all bs new_metrics) h (set_all-IsPair bs hs))

-- However often the backends flip, the gauge is 1 for the backend that was named last, and 0 for the
-- other.
set_all-IsOneHot :
    (active : Text) (before : List Text)
    → IsBackend active
    → All IsBackend before
    → IsOneHot active (set_all (active ∷ before) new_metrics).limiter_backend
unfolding set_all
set_all-IsOneHot active before h hs =
    set_active_backend-IsOneHot active (set_all before new_metrics) h (set_all-IsPair before hs)
