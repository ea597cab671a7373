-- ===== src/App/Concurrent/Reached.antt =====
-- cmd/gateway/main.go with internal/proxy: the metrics while requests are in flight.
use turnike.Common.{
  ℕ, ◌+◌, ◌++◌, Bool, Option, none, some, List, [], ◌∷◌, All, All-In, All-middle, All-append, In,
  keep, length, length-keep_middle, Text, text_eq, ok, ◌≡◌, refl, ap, subst, false, ◌∙◌, arith,
}
use turnike.Config.{Config}
use turnike.Config.Validate.{Url, Decoded, parse}
use turnike.Config.Validate.Routes.{IsValidRoute}
use turnike.Config.Validate.Sound.{parse-IsSound}
use turnike.Metrics.{SeriesKey, Metrics, set_active_backend}
use turnike.Metrics.Series.{IsSeries, total, count_of}
use turnike.Limiter.Float.{Float}
use turnike.Limiter.Redis.{Script}
use turnike.Proxy.Identity.{Hosts}
use turnike.Proxy.Table.{Entry, new_table}
use turnike.Proxy.Upstreams.{Gateway, ReverseProxy, proxy_of}
use turnike.Proxy.Upstreams.Built.{table_entry}
use turnike.Proxy.Middleware.Mirror.{rooted_ne}
use turnike.App.{App}
use turnike.App.Serving.{IsServing}
use turnike.App.Concurrent.{
  no_route, decision, Phase, arrived, asking, counting, proxying, returning, finished, Flight,
  System, Step, arrives, goes_on, sets_gauges, Reach, here, later,
}
use turnike.App.Concurrent.Flights.{
  is_counted_under, is_counted, is_observed, is_pending, entry_of, IsFlight, IsListed, Accounts,
  advance-Accounts, bit,
}

-- The entry, if there is one, has a reverse proxy, which names the upstream of the entry's route.
abbrev pub FindsProxy : Gateway → Option Entry → Type 0
FindsProxy g none = Unit
FindsProxy g (some e) =
    (p : ReverseProxy) × (proxy_of g e ≡ some p) × (p.upstream ≡ e.route.upstream)

-- How many flights have passed a point.
abbrev pub number : {E : Type 0} → (Phase E → Bool) → List (Flight E) → ℕ
number p fs = length (keep (λ f. p f.phase) fs)

-- A system whose metrics were `m` before its flights came.
record IsAccounted {E : Type 0} (table : List Entry) (m : Metrics) (s : System E) : Type 0 where
  under :
      (k : SeriesKey)
      → count_of k s.metrics.requests_total
        ≡ count_of k m.requests_total + number (is_counted_under k) s.flights
  counted : total s.metrics.requests_total ≡ total m.requests_total + number is_counted s.flights
  observed : s.metrics.request_duration ≡ m.request_duration + number is_observed s.flights
  flights : All (IsFlight table) s.flights
  series : (k : SeriesKey) → IsSeries k m.requests_total → IsSeries k s.metrics.requests_total
  same_length : length s.metrics.requests_total ≡ length m.requests_total

-- One flight goes on, and what is counted with it.
moved :
    {E : Type 0} (p : Phase E → Bool) (before after : List (Flight E)) (f f' : Flight E) (a b c : ℕ)
    → b + bit (p f.phase) ≡ a + bit (p f'.phase)
    → a ≡ c + number p (before ++ f ∷ after)
    → b ≡ c + number p (before ++ f' ∷ after)
moved p before after f f' a b c step was = omega (
  arith,
  length-keep_middle (λ x. p x.phase) before f after,
  length-keep_middle (λ x. p x.phase) before f' after,
  step,
  was,
)

goes_on-IsAccounted :
    {E : Type 0} (table : List Entry) (m : Metrics) (s : System E) (before after : List (Flight E))
    (f f' : Flight E) (m' : Metrics)
    → s.flights ≡ before ++ f ∷ after
    → IsFlight table f' × Accounts s.metrics f.phase m' f'.phase
    → IsAccounted table m s
    → IsAccounted table m (record { metrics = m'; flights = before ++ f' ∷ after })
goes_on-IsAccounted table m s before after f f' m' e (kept, a) h =
    let (left, _, right) =
      All-middle (IsFlight table) before f after (subst (All (IsFlight table)) e h.flights) in
    record {
      under = λ k.
          moved (is_counted_under k) before after f f' _ _ _ (a.under k)
            (h.under k ∙ ap (λ fs. count_of k m.requests_total + number (is_counted_under k) fs) e);
      counted =
          moved is_counted before after f f' _ _ _ a.counted
            (h.counted ∙ ap (λ fs. total m.requests_total + number is_counted fs) e);
      observed =
          moved is_observed before after f f' _ _ _ a.observed
            (h.observed ∙ ap (λ fs. m.request_duration + number is_observed fs) e);
      flights = All-append (IsFlight table) before (f' ∷ after) left (kept, right);
      series = λ k was. a.series k (h.series k was);
      same_length = a.same_length ∙ h.same_length;
    }

split_phase :
    {E : Type 0} (p : Phase E) → bit (is_counted p) ≡ bit (is_observed p) + bit (is_pending p)
split_phase (arrived r) = refl
split_phase (asking e key l) = refl
split_phase (counting e o) = refl
split_phase (proxying e o) = refl
split_phase (returning no_route) = refl
split_phase (returning (decision e o)) = refl
split_phase (finished no_route) = refl
split_phase (finished (decision e o)) = refl

number_split :
    {E : Type 0} (fs : List (Flight E))
    → number is_counted fs ≡ number is_observed fs + number is_pending fs
number_split [] = refl
number_split (f ∷ fs) = ground (arith, number_split fs, split_phase f.phase)

entry-filled :
    (parse_url : Text → Option Url) (d : Decoded) (c : Config)
    → parse parse_url d ≡ ok c
    → (e : Entry) → In e (new_table c.routes)
    → text_eq e.route.prefix [] ≡ false
entry-filled parse_url d c parsed e listed =
    rooted_ne e.route.prefix
      (All-In IsValidRoute c.routes (parse-IsSound parse_url d c parsed).routes
        (table_entry parse_url c.routes e listed).0).rooted

module _ (fl : Float) (R : Type 0) (script : Script R) (hosts : Hosts)
    (parse_url : Text → Option Url) {E : Type 0} where
  open fl use {F}

  Step-IsAccounted :
      (d : Decoded) (c : Config) (app : App F R) (s t : System E)
      → parse parse_url d ≡ ok c
      → IsServing fl R script hosts parse_url c app
      → Step hosts app.gateway s t
      → IsAccounted (new_table c.routes) app.metrics s
      → IsAccounted (new_table c.routes) app.metrics t
  unfolding set_active_backend
  Step-IsAccounted d c app s t parsed serving (arrives r) h = record {
    under = h.under;
    counted = h.counted;
    observed = h.observed;
    flights = (record { holder = refl; listed = tt }, h.flights);
    series = h.series;
    same_length = h.same_length;
  }
  Step-IsAccounted d c app s t parsed serving (goes_on before f after asked e) h =
      let (_, now, _) =
        All-middle (IsFlight (new_table c.routes)) before f after
          (subst (All (IsFlight (new_table c.routes))) e h.flights) in
      goes_on-IsAccounted (new_table c.routes) app.metrics s before after f _ _ e
        (advance-Accounts hosts app.gateway c serving.table (entry-filled parse_url d c parsed)
          asked s.metrics f.route_prefix f.phase now
          (λ x listed l. h.series (x.route.prefix, l) ((serving.proxied x listed).series l)))
        h
  Step-IsAccounted d c app s t parsed serving (sets_gauges b active) h = record {
    under = h.under;
    counted = h.counted;
    observed = h.observed;
    flights = h.flights;
    series = h.series;
    same_length = h.same_length;
  }

  Reach-IsAccounted :
      (d : Decoded) (c : Config) (app : App F R) (s : System E)
      → parse parse_url d ≡ ok c
      → IsServing fl R script hosts parse_url c app
      → Reach hosts app.gateway (record { metrics = app.metrics; flights = [] }) s
      → IsAccounted (new_table c.routes) app.metrics s
  Reach-IsAccounted d c app s parsed serving here = record {
    under = λ k. omega arith;
    counted = omega arith;
    observed = omega arith;
    flights = tt;
    series = λ k h. h;
    same_length = refl;
  }
  Reach-IsAccounted d c app s parsed serving (later {t = t} r step) =
      Step-IsAccounted d c app t s parsed serving step
        (Reach-IsAccounted d c app t parsed serving r)

  -- Under a configuration that parsed, from a gateway in service on, however the requests'
  -- goroutines interleave and whatever the limiter answers them: every series of requests_total
  -- stands at what it stood at plus the flights that were counted under it; the total exceeds the
  -- histogram's observations by exactly the flights between their increment and their deferred
  -- function, those in the reverse proxy among them; no series is made; and every flight that
  -- matched an entry finds that entry's reverse proxy, which names the upstream of its route.
  pub Reach-accounts :
      (d : Decoded) (c : Config) (app : App F R) (s : System E)
      → parse parse_url d ≡ ok c
      → IsServing fl R script hosts parse_url c app
      → Reach hosts app.gateway (record { metrics = app.metrics; flights = [] }) s
      → ((k : SeriesKey)
          → count_of k s.metrics.requests_total
            ≡ count_of k app.metrics.requests_total + number (is_counted_under k) s.flights)
        × (total s.metrics.requests_total
            ≡ s.metrics.request_duration + number is_pending s.flights)
        × (length s.metrics.requests_total ≡ length app.metrics.requests_total)
        × All (λ f. FindsProxy app.gateway (entry_of f.phase)) s.flights
  Reach-accounts d c app s parsed serving r =
      let h = Reach-IsAccounted d c app s parsed serving r in
      (
        h.under,
        omega (arith, h.counted, h.observed, serving.observed, number_split s.flights),
        h.same_length,
        All-proxied s.flights h.flights,
      )
    where
      finds-FindsProxy :
          (o : Option Entry) → IsListed (new_table c.routes) o → FindsProxy app.gateway o
      finds-FindsProxy none h = tt
      finds-FindsProxy (some e) h =
          let found = serving.proxied e h in (found.proxy, found.found, found.upstream)

      All-proxied :
          (fs : List (Flight E))
          → All (IsFlight (new_table c.routes)) fs
          → All (λ f. FindsProxy app.gateway (entry_of f.phase)) fs
      All-proxied [] h = tt
      All-proxied (f ∷ fs) (h, hs) =
          (finds-FindsProxy (entry_of f.phase) h.listed, All-proxied fs hs)
