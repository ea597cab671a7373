-- ===== src/Metrics/Series.antt =====
-- internal/metrics/metrics.go: the series of requests_total and their values.
use turnike.Common.{
  ℕ, suc, ◌+◌, true, some, List, [], ◌∷◌, lookup, insert, length, lookup-insert, Text, text_eq,
  text_eq_iff, ◌≡◌, ◌↔◌, inl, inr, refl, ap, ◌∙◌, arith, if◌then◌else◌, Bool-cases, In,
}
use turnike.Metrics.{
  Label, allow, deny, degrade_allow, degrade_deny, degrade, label_text, decisions, SeriesKey,
  series_eq, Metrics, value, materialize, increment, init_series, init_route,
}

label_eq_iff : (l k : Label) → (text_eq (label_text l) (label_text k) ≡ true) ↔ (l ≡ k)
unfolding text_eq
label_eq_iff l k = ground arith

pub series_eq_iff : (a b : SeriesKey) → (series_eq a b ≡ true) ↔ (a ≡ b)
unfolding series_eq
series_eq_iff (r, l) (s, k) = ground (arith, text_eq_iff r s, label_eq_iff l k)

-- All that was counted.
unfoldable pub total : List (SeriesKey × ℕ) → ℕ
total [] = 0
total ((k, n) ∷ m) = n + total m

-- What a series stands at; it reads as 0 where there is none.
abbrev pub count_of : SeriesKey → List (SeriesKey × ℕ) → ℕ
count_of k m = value (lookup series_eq k m)

-- There is a series.
abbrev pub IsSeries : SeriesKey → List (SeriesKey × ℕ) → Type 0
IsSeries k m = (n : ℕ) × (lookup series_eq k m ≡ some n)

total-insert :
    (k : SeriesKey) (v : ℕ) (m : List (SeriesKey × ℕ))
    → total (insert series_eq k v m) + count_of k m ≡ v + total m
unfolding total
total-insert k v [] = omega arith
total-insert k v ((j, w) ∷ m) = elim (Bool-cases (series_eq j k)) [
  | inl same ↦ rw same (omega arith)
  | inr other ↦ rw other (omega (arith, total-insert k v m))
]

-- One increment adds one to its series, makes it if need be, and leaves every other as it was.
pub increment_lem :
    (k : SeriesKey) (m : List (SeriesKey × ℕ))
    → (total (increment k m) ≡ suc (total m))
      × ((j : SeriesKey)
          → lookup series_eq j (increment k m)
            ≡ (if series_eq k j then some (suc (count_of k m)) else lookup series_eq j m))
unfolding increment
increment_lem k m = (
  omega (arith, total-insert k (suc (count_of k m)) m),
  λ j. lookup-insert series_eq series_eq_iff k j (suc (count_of k m)) m,
)

insert-IsSeries :
    (k j : SeriesKey) (n : ℕ) (m : List (SeriesKey × ℕ))
    → IsSeries j m
    → IsSeries j (insert series_eq k n m)
insert-IsSeries k j n m (v, h) = elim (Bool-cases (series_eq k j)) [
  | inl same ↦ (n, lookup-insert series_eq series_eq_iff k j n m ∙ rw same)
  | inr other ↦ (v, lookup-insert series_eq series_eq_iff k j n m ∙ rw other h)
]

insert-IsSeries_own :
    (k : SeriesKey) (n : ℕ) (m : List (SeriesKey × ℕ)) → IsSeries k (insert series_eq k n m)
insert-IsSeries_own k n m =
    (n, lookup-insert series_eq series_eq_iff k k n m ∙ rw ((series_eq_iff k k).1 refl))

init_series-total :
    (route : Text) (ds : List Label) (m : List (SeriesKey × ℕ))
    → total (init_series route ds m) ≡ total m
unfolding init_series materialize
init_series-total route [] m = refl
init_series-total route (d ∷ ds) m = omega (
  arith,
  init_series-total route ds (materialize (route, d) m),
  total-insert (route, d) (count_of (route, d) m) m,
)

init_series-IsSeries :
    (route : Text) (ds : List Label) (m : List (SeriesKey × ℕ)) (k : SeriesKey)
    → IsSeries k m
    → IsSeries k (init_series route ds m)
unfolding init_series materialize
init_series-IsSeries route [] m k h = h
init_series-IsSeries route (d ∷ ds) m k h =
    init_series-IsSeries route ds (materialize (route, d) m) k (insert-IsSeries (route, d) k _ m h)

init_series-IsSeries_own :
    (route : Text) (ds : List Label) (m : List (SeriesKey × ℕ)) (d : Label)
    → In d ds
    → IsSeries (route, d) (init_series route ds m)
unfolding init_series materialize
init_series-IsSeries_own route [] m d h = absurd h
init_series-IsSeries_own route (c ∷ ds) m d (inl e) =
    init_series-IsSeries route ds (materialize (route, c) m) (route, d)
      (rw e (insert-IsSeries_own (route, c) _ m))
init_series-IsSeries_own route (c ∷ ds) m d (inr h) =
    init_series-IsSeries_own route ds (materialize (route, c) m) d h

In-decisions : (d : Label) → In d decisions
In-decisions allow = inl refl
In-decisions deny = inr (inl refl)
In-decisions degrade_allow = inr (inr (inl refl))
In-decisions degrade_deny = inr (inr (inr (inl refl)))
In-decisions degrade = inr (inr (inr (inr (inl refl))))

-- InitRoute makes the route's series for every decision, keeps those that are there, and counts
-- nothing.
pub init_route-IsSeries :
    (route : Text) (m : Metrics)
    → ((d : Label) → IsSeries (route, d) (init_route route m).requests_total)
      × ((k : SeriesKey)
          → IsSeries k m.requests_total
          → IsSeries k (init_route route m).requests_total)
      × (total (init_route route m).requests_total ≡ total m.requests_total)
unfolding init_route
init_route-IsSeries route m = (
  λ d. init_series-IsSeries_own route decisions m.requests_total d (In-decisions d),
  init_series-IsSeries route decisions m.requests_total,
  init_series-total route decisions m.requests_total,
)

pub increment-IsSeries :
    (k j : SeriesKey) (m : List (SeriesKey × ℕ)) → IsSeries j m → IsSeries j (increment k m)
unfolding increment
increment-IsSeries k j m h = insert-IsSeries k j _ m h

insert-length :
    (k : SeriesKey) (v : ℕ) (m : List (SeriesKey × ℕ))
    → IsSeries k m
    → length (insert series_eq k v m) ≡ length m
insert-length k v [] (n, h) = absurd (cc)
insert-length k v ((j, w) ∷ m) (n, h) = elim (Bool-cases (series_eq j k)) [
  | inl same ↦ rw same refl
  | inr other ↦ rw other (ap suc (insert-length k v m (n, rw other at h)))
]

-- An increment of a series that is there makes no other.
pub increment-length :
    (k : SeriesKey) (m : List (SeriesKey × ℕ)) → IsSeries k m → length (increment k m) ≡ length m
unfolding increment
increment-length k m h = insert-length k _ m h
