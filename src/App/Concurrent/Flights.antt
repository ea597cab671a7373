-- ===== src/App/Concurrent/Flights.antt =====
-- internal/proxy/gateway.go and middleware.go: what one goroutine's step does to the metrics.
use turnike.Common.{
  ℕ, suc, ◌+◌, true, false, not, Bool, Option, none, some, List, [], In, length, Text, text_eq,
  Result, ◌≡◌, inl, inr, refl, sym, ap, ◌∙◌, arith, if◌then◌else◌, Bool-cases,
}
use turnike.Config.{Config, Limit}
use turnike.Metrics.{Label, SeriesKey, series_eq, Metrics, increment}
use turnike.Metrics.Series.{
  IsSeries, total, count_of, series_eq_iff, increment_lem, increment-IsSeries, increment-length,
}
use turnike.Limiter.{Decision}
use turnike.Proxy.Identity.{Hosts, Request}
use turnike.Proxy.Paths.{has_dot_segments}
use turnike.Proxy.Table.{Entry, match, new_table}
use turnike.Proxy.Table.Longest.{match-In}
use turnike.Proxy.Upstreams.{Gateway}
use turnike.Proxy.Gateway.{Reply, answer, forward, decision_label, respond}
use turnike.App.Concurrent.{
  Outcome, no_route, decision, Phase, arrived, asking, counting, proxying, returning, finished,
  Flight, advance, matched, after_reply,
}

-- The series that an outcome was counted under.
abbrev pub is_under : {E : Type 0} → SeriesKey → Outcome E → Bool
is_under k no_route = false
is_under k (decision e o) = series_eq (e.route.prefix, decision_label o) k

abbrev pub is_routed : {E : Type 0} → Outcome E → Bool
is_routed no_route = false
is_routed (decision e o) = true

-- Past the counter, under a series; past the counter; past the histogram; between the two.
abbrev pub is_counted_under : {E : Type 0} → SeriesKey → Phase E → Bool
is_counted_under k (proxying e o) = is_under k (decision e o)
is_counted_under k (returning x) = is_under k x
is_counted_under k (finished x) = is_under k x
is_counted_under k _ = false

abbrev pub is_counted : {E : Type 0} → Phase E → Bool
is_counted (proxying e o) = true
is_counted (returning x) = is_routed x
is_counted (finished x) = is_routed x
is_counted _ = false

abbrev pub is_observed : {E : Type 0} → Phase E → Bool
is_observed (finished x) = is_routed x
is_observed _ = false

abbrev pub is_pending : {E : Type 0} → Phase E → Bool
is_pending (proxying e o) = true
is_pending (returning x) = is_routed x
is_pending _ = false

-- The entry that a request is served on, from the match on.
abbrev pub entry_of : {E : Type 0} → Phase E → Option Entry
entry_of (arrived r) = none
entry_of (asking e key l) = some e
entry_of (counting e o) = some e
entry_of (proxying e o) = some e
entry_of (returning no_route) = none
entry_of (returning (decision e o)) = some e
entry_of (finished no_route) = none
entry_of (finished (decision e o)) = some e

abbrev pub holder_of : Option Entry → Text
holder_of none = []
holder_of (some e) = e.route.prefix

abbrev pub IsListed : List Entry → Option Entry → Type 0
IsListed table none = Unit
IsListed table (some e) = In e table

-- A flight is served on an entry of the table, and its holder has the prefix of that entry's route.
pub record IsFlight {E : Type 0} (table : List Entry) (f : Flight E) : Type 0 where
  pub holder : f.route_prefix ≡ holder_of (entry_of f.phase)
  pub listed : IsListed table (entry_of f.phase)

abbrev pub bit : Bool → ℕ
bit b = if b then 1 else 0

-- The metrics and a flight's phase before and after a step, where the metrics have counted and observed
-- what the flight passed.
pub record Accounts {E : Type 0} (m : Metrics) (p : Phase E) (m' : Metrics) (p' : Phase E)
    : Type 0 where
  pub under :
      (k : SeriesKey)
      → count_of k m'.requests_total + bit (is_counted_under k p)
        ≡ count_of k m.requests_total + bit (is_counted_under k p')
  pub counted :
      total m'.requests_total + bit (is_counted p) ≡ total m.requests_total + bit (is_counted p')
  pub observed :
      m'.request_duration + bit (is_observed p) ≡ m.request_duration + bit (is_observed p')
  pub series : (k : SeriesKey) → IsSeries k m.requests_total → IsSeries k m'.requests_total
  pub same_length : length m'.requests_total ≡ length m.requests_total

same_count :
    (key k : SeriesKey) (m : Metrics)
    → series_eq key k ≡ true
    → count_of key m.requests_total ≡ count_of k m.requests_total
same_count key k m own = ap (λ j. count_of j m.requests_total) ((series_eq_iff key k).0 own)

module _ {E : Type 0} (hosts : Hosts) (g : Gateway) (c : Config)
    (table : g.table ≡ new_table c.routes)
    (filled : (e : Entry) → In e (new_table c.routes) → text_eq e.route.prefix [] ≡ false) where
  unmoved :
      (m : Metrics) (p p' : Phase E)
      → ((k : SeriesKey) → is_counted_under k p ≡ is_counted_under k p')
      → is_counted p ≡ is_counted p'
      → is_observed p ≡ is_observed p'
      → Accounts m p m p'
  unmoved m p p' u n o = record {
    under = λ k. rw (u k) refl;
    counted = rw n refl;
    observed = rw o refl;
    series = λ k h. h;
    same_length = refl;
  }

  matched-IsFlight :
      (prefix : Text) (r : Request) (m : Metrics) (o : Option Entry)
      → prefix ≡ []
      → match g.table r.escaped_path ≡ o
      → IsFlight {E = E} (new_table c.routes) (matched hosts g prefix r o)
        × Accounts {E = E} m (arrived r) m (matched hosts g prefix r o).phase
  unfolding matched
  matched-IsFlight prefix r m none empty h =
      (record { holder = empty; listed = tt }, unmoved m _ _ (λ k. refl) refl refl)
  matched-IsFlight prefix r m (some e) empty h = (
    record {
      holder = refl;
      listed =
          match-In c.routes r.escaped_path e (ap (λ t. match t r.escaped_path) (sym table) ∙ h);
    },
    unmoved m _ _ (λ k. refl) refl refl,
  )

  -- The flight is served on its entry, and counted, whether the reverse proxy is called or not.
  after_reply-IsFlight :
      (e : Entry) (o : Result E Decision) (reply : Reply)
      → In e (new_table c.routes)
      → IsFlight
          (new_table c.routes)
          (record { route_prefix = e.route.prefix; phase = after_reply e o reply })
  unfolding after_reply
  after_reply-IsFlight e o (forward x hs) listed = record { holder = refl; listed = listed }
  after_reply-IsFlight e o (answer n hs) listed = record { holder = refl; listed = listed }

  after_reply_lem :
      (e : Entry) (o : Result E Decision) (reply : Reply)
      → ((k : SeriesKey) → is_counted_under k (after_reply e o reply) ≡ is_under k (decision e o))
        × (is_counted (after_reply e o reply) ≡ true)
        × (is_observed (after_reply e o reply) ≡ false)
  unfolding after_reply
  after_reply_lem e o (forward x hs) = (λ k. refl, refl, refl)
  after_reply_lem e o (answer n hs) = (λ k. refl, refl, refl)

  counting-Accounts :
      (m : Metrics) (e : Entry) (o : Result E Decision) (reply : Reply)
      → IsSeries (e.route.prefix, decision_label o) m.requests_total
      → Accounts m
          (counting e o)
          (record m {
            requests_total = increment (e.route.prefix, decision_label o) m.requests_total;
          })
          (after_reply e o reply)
  counting-Accounts m e o reply made =
      let key : SeriesKey = (e.route.prefix, decision_label o) in
      let (one_more, each) = increment_lem key m.requests_total in
      let (below, through, open_yet) = after_reply_lem e o reply in
      record {
        under = λ k. (elim (Bool-cases (series_eq key k)) [
          | inl own ↦ rw (each k, below k, own) (omega (arith, same_count key k m own))
          | inr other ↦ rw (each k, below k, other) refl
        ]);
        counted = rw through (omega (arith, one_more));
        observed = rw open_yet refl;
        series = λ k h. increment-IsSeries key k m.requests_total h;
        same_length = increment-length key m.requests_total made;
      }

  returning-Accounts :
      (m : Metrics) (prefix : Text) (x : Outcome E)
      → IsFlight (new_table c.routes) (record { route_prefix = prefix; phase = returning x })
      → Accounts m
          (returning x)
          (record m {
            request_duration =
                if not (text_eq prefix []) then suc m.request_duration else m.request_duration;
          })
          (finished x)
  unfolding text_eq
  returning-Accounts m prefix no_route f = record {
    under = λ k. refl;
    counted = refl;
    observed = rw (f.holder) refl;
    series = λ k h. h;
    same_length = refl;
  }
  returning-Accounts m prefix (decision e o) f = record {
    under = λ k. refl;
    counted = refl;
    observed = rw (f.holder, filled e f.listed) (omega arith);
    series = λ k h. h;
    same_length = refl;
  }

  -- A step of a flight whose entry's series are made accounts for what it passes.
  pub advance-Accounts :
      (asked : Text → Limit → Result E Decision) (m : Metrics) (prefix : Text) (p : Phase E)
      → IsFlight (new_table c.routes) (record { route_prefix = prefix; phase = p })
      → ((e : Entry)
          → In e (new_table c.routes)
          → (l : Label) → IsSeries (e.route.prefix, l) m.requests_total)
      → let (m', f') = advance hosts g asked m prefix p in
        IsFlight (new_table c.routes) f' × Accounts m p m' f'.phase
  unfolding advance
  advance-Accounts asked m prefix (arrived r) f made = elim (Bool-cases (has_dot_segments r.path)) [
    | inl dots ↦
        rw dots (record { holder = f.holder; listed = tt }, unmoved m _ _ (λ k. refl) refl refl)
    | inr plain ↦
        rw plain (matched-IsFlight prefix r m (match g.table r.escaped_path) f.holder refl)
  ]
  advance-Accounts asked m prefix (asking e key l) f made =
      (record { holder = f.holder; listed = f.listed }, unmoved m _ _ (λ k. refl) refl refl)
  advance-Accounts asked m prefix (counting e o) f made = (
    rw (f.holder) (after_reply-IsFlight e o (respond g.on_error e o) f.listed),
    counting-Accounts m e o (respond g.on_error e o) (made e f.listed (decision_label o)),
  )
  advance-Accounts asked m prefix (proxying e o) f made =
      (record { holder = f.holder; listed = f.listed }, unmoved m _ _ (λ k. refl) refl refl)
  advance-Accounts asked m prefix (returning no_route) f made =
      (record { holder = f.holder; listed = f.listed }, returning-Accounts m prefix no_route f)
  advance-Accounts asked m prefix (returning (decision e o)) f made = (
    record { holder = f.holder; listed = f.listed },
    returning-Accounts m prefix (decision e o) f,
  )
  advance-Accounts asked m prefix (finished x) f made =
      (record { holder = f.holder; listed = f.listed }, unmoved m _ _ (λ k. refl) refl refl)
