-- ===== src/Metrics.antt =====
-- internal/metrics/metrics.go: the instruments as numbers. A vector is an association list from the
-- label values of its series; buckets of the histogram, help texts and the registry are left out.
pub mod Gauges
pub mod Flips
mod Tests
pub mod Series
use turnike.Common.{
  ℕ, zero, suc, ◌+◌, ◌&&◌, Bool, Option, none, some, List, [], ◌∷◌, map, lookup, insert, Text,
  text_eq, codes, if◌then◌else◌,
}
use turnike.Config.{backend_redis, backend_memory}

-- The decision label values.
pub data Label : Type 0 where
  allow deny degrade_allow degrade_deny degrade : Label

abbrev pub label_text : Label → Text
label_text allow = codes "allow"
label_text deny = codes "deny"
label_text degrade_allow = codes "degrade_allow"
label_text degrade_deny = codes "degrade_deny"
label_text degrade = codes "degrade"

abbrev pub decisions : List Label
decisions = allow ∷ deny ∷ degrade_allow ∷ degrade_deny ∷ degrade ∷ []

abbrev pub backends : List Text
backends = backend_redis ∷ backend_memory ∷ []

-- The label values of a series of requests_total: a route's prefix and a decision.
abbrev pub SeriesKey : Type 0
SeriesKey = Text × Label

pub series_eq : SeriesKey → SeriesKey → Bool
series_eq (r, l) (s, k) = text_eq r s && text_eq (label_text l) (label_text k)

-- The histogram is how often it observed.
pub record Metrics : Type 0 where
  pub requests_total : List (SeriesKey × ℕ)
  pub request_duration : ℕ
  pub breaker_state : ℕ
  pub limiter_backend : List (Text × ℕ)

abbrev pub value : Option ℕ → ℕ
value none = 0
value (some n) = n

-- WithLabelValues makes a series that is not there, at 0.
pub materialize : SeriesKey → List (SeriesKey × ℕ) → List (SeriesKey × ℕ)
unfolding series_eq
materialize k m = insert series_eq k (value (lookup series_eq k m)) m

-- RequestsTotal.WithLabelValues(route, decision).Inc().
pub increment : SeriesKey → List (SeriesKey × ℕ) → List (SeriesKey × ℕ)
unfolding series_eq
increment k m = insert series_eq k (suc (value (lookup series_eq k m))) m

-- New: both series of the backend gauge are made at 0.
abbrev pub new_metrics : Metrics
new_metrics = record {
  requests_total = [];
  request_duration = 0;
  breaker_state = 0;
  limiter_backend = map (λ b. (b, 0)) backends;
}

set_series : Text → List Text → List (Text × ℕ) → List (Text × ℕ)
set_series active [] m = m
set_series active (b ∷ bs) m =
    set_series active bs (insert text_eq b (if text_eq b active then 1 else 0) m)

unfoldable pub set_active_backend : Text → Metrics → Metrics
unfolding set_series
set_active_backend active m = record m {
  limiter_backend = set_series active backends m.limiter_backend;
}

init_series : Text → List Label → List (SeriesKey × ℕ) → List (SeriesKey × ℕ)
unfolding materialize
init_series route [] m = m
init_series route (d ∷ ds) m = init_series route ds (materialize (route, d) m)

unfoldable pub init_route : Text → Metrics → Metrics
unfolding init_series
init_route route m = record m { requests_total = init_series route decisions m.requests_total }
