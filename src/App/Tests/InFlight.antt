-- ===== src/App/Tests/InFlight.antt =====
-- Requests in flight at concrete input: one in the reverse proxy, which is counted and not yet
-- observed.
use turnike.Common.{
  ℕ, ◌+◌, [], ◌∷◌, All, length, Text, Result, ok, ◌≡◌, refl, pos, zero, suc, true, false,
}
use turnike.Config.{Limit}
use turnike.Config.Validate.{document}
use turnike.Metrics.{SeriesKey, Metrics}
use turnike.Metrics.Series.{total, count_of}
use turnike.Limiter.{Decision}
use turnike.Limiter.Select.{LimiterError}
use turnike.Proxy.Tests.{any_url, hosts}
use turnike.Limiter.Tests.FixedPoint.{fixed_point}
use turnike.App.Tests.{command, app, app-IsServing, incoming, with_redis, with_redis_parses, down}
use turnike.App.Concurrent.{Flight, arrival, advance, System, goes_on, arrives, Reach, here, later}
use turnike.App.Concurrent.Flights.{is_counted_under, is_pending, entry_of}
use turnike.App.Concurrent.Reached.{number, FindsProxy, Reach-accounts}

-- A limiter that admits, and counts the calls.
abbrev admits : Text → Limit → ℕ → ℕ × Result LimiterError Decision
admits key l n = (
  n + 1,
  ok (record {
    allowed = true;
    limit = l.rate;
    remaining = pos 1;
    reset = pos 10000;
    retry_after = pos 0;
    degraded = false;
  }),
)

abbrev on_way : ℕ → Metrics × Flight LimiterError
on_way zero = (app.metrics, arrival incoming.request)
on_way (suc n) =
    let (m, f) = on_way n in
    advance hosts app.gateway (λ key l. (admits key l 0).1) m f.route_prefix f.phase

abbrev in_flight : ℕ → System LimiterError
in_flight n = record { metrics = (on_way n).0; flights = (on_way n).1 ∷ [] }

reached :
    (n : ℕ) → Reach hosts app.gateway (record { metrics = app.metrics; flights = [] }) (in_flight n)
reached zero = later here (arrives incoming.request)
reached (suc n) = later (reached n) (goes_on [] (on_way n).1 [] (λ key l. (admits key l 0).1) refl)

one_pending : number is_pending (in_flight 3).flights ≡ 1
unfolding command advance
one_pending = refl

Reach-accounts_example :
    ((k : SeriesKey)
      → count_of k (in_flight 3).metrics.requests_total
        ≡ count_of k app.metrics.requests_total + number (is_counted_under k) (in_flight 3).flights)
    × (total (in_flight 3).metrics.requests_total
        ≡ (in_flight 3).metrics.request_duration + number is_pending (in_flight 3).flights)
    × (length (in_flight 3).metrics.requests_total ≡ length app.metrics.requests_total)
    × All (λ f. FindsProxy app.gateway (entry_of f.phase)) (in_flight 3).flights
Reach-accounts_example =
    Reach-accounts fixed_point ℕ down hosts any_url (document with_redis true) with_redis app
      (in_flight 3) with_redis_parses app-IsServing (reached 3)
