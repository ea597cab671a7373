-- ===== src/App/Concurrent.antt =====
-- internal/proxy/middleware.go and gateway.go: requests in flight at once. Each is served by its own
-- goroutine, which runs from one shared access to the next; the limiter's calls have their own order in
-- Limiter/Breaker/Concurrent, so that here any answer can come.
pub mod Flights
pub mod Reached
use turnike.Common.{
  ℕ, suc, Bool, true, false, not, Option, none, some, List, [], ◌∷◌, ◌++◌, Text, text_eq, Result,
  ◌≡◌, if◌then◌else◌,
}
use turnike.Config.{Limit}
use turnike.Metrics.{Metrics, increment, set_active_backend}
use turnike.Limiter.{Decision}
use turnike.Proxy.Identity.{Hosts, Request}
use turnike.Proxy.Paths.{has_dot_segments}
use turnike.Proxy.Table.{Entry, match}
use turnike.Proxy.Upstreams.{Gateway}
use turnike.Proxy.Gateway.{
  Reply, answer, forward, quota_key, effective_limit, decision_label, respond,
}

-- How ServeHTTP ended: without a route, or with the limiter's outcome on one.
pub data Outcome (E : Type 0) : Type 0 where
  no_route : Outcome E
  decision : Entry → Result E Decision → Outcome E

-- Where a request's goroutine stands: before the match, in the limiter's call, before the counter's
-- increment, in the reverse proxy's ServeHTTP, before Middleware's deferred function, and after it. A
-- goroutine stays in a call for as long as the others go on. A panic of the reverse proxy ends its call
-- like a return.
pub data Phase (E : Type 0) : Type 0 where
  arrived : Request → Phase E
  asking : Entry → (key : Text) → Limit → Phase E
  counting : Entry → Result E Decision → Phase E
  proxying : Entry → Result E Decision → Phase E
  returning : Outcome E → Phase E
  finished : Outcome E → Phase E

-- A request in flight, with the holder that setRoutePrefix fills.
pub record Flight (E : Type 0) : Type 0 where
  pub route_prefix : Text
  pub phase : Phase E

abbrev pub arrival : {E : Type 0} → Request → Flight E
arrival r = record { route_prefix = []; phase = arrived r }

-- What follows the counter: the reverse proxy, or the answer that is written without it.
after_reply : {E : Type 0} → Entry → Result E Decision → Reply → Phase E
after_reply e o (forward _ _) = proxying e o
after_reply e o (answer _ _) = returning (decision e o)

module _ {E : Type 0} (hosts : Hosts) (g : Gateway) where
  matched : Text → Request → Option Entry → Flight E
  matched prefix r none = record { route_prefix = prefix; phase = returning no_route }
  matched prefix r (some e) = record {
    route_prefix = e.route.prefix;
    phase = asking e (quota_key hosts e r) (effective_limit hosts e r);
  }

  -- One goroutine's way to its next shared access, where `asked` is what the limiter answers.
  unfoldable pub advance :
      (Text → Limit → Result E Decision) → Metrics → Text → Phase E → Metrics × Flight E
  unfolding matched after_reply
  advance asked m prefix (arrived r) = (
    m,
    if has_dot_segments r.path
        then record { route_prefix = prefix; phase = returning no_route }
        else matched prefix r (match g.table r.escaped_path),
  )
  advance asked m prefix (asking e key l) =
      (m, record { route_prefix = prefix; phase = counting e (asked key l) })
  advance asked m prefix (counting e o) = (
    record m { requests_total = increment (e.route.prefix, decision_label o) m.requests_total },
    record { route_prefix = prefix; phase = after_reply e o (respond g.on_error e o) },
  )
  advance asked m prefix (proxying e o) =
      (m, record { route_prefix = prefix; phase = returning (decision e o) })
  advance asked m prefix (returning x) = (
    record m {
      request_duration =
          if not (text_eq prefix []) then suc m.request_duration else m.request_duration;
    },
    record { route_prefix = prefix; phase = finished x },
  )
  advance asked m prefix (finished x) = (m, record { route_prefix = prefix; phase = finished x })

-- The process's metrics, with every request that came.
pub record System (E : Type 0) : Type 0 where
  pub metrics : Metrics
  pub flights : List (Flight E)

-- A request comes, one of those in flight goes on, or the limiter sets its gauges.
pub data Step {E : Type 0} (hosts : Hosts) (g : Gateway) (s : System E) : System E → Type 0 where
  arrives : (r : Request) → Step hosts g s (record s { flights = arrival r ∷ s.flights })
  goes_on :
      (before : List (Flight E)) (f : Flight E) (after : List (Flight E))
      (asked : Text → Limit → Result E Decision)
      → s.flights ≡ before ++ f ∷ after
      → Step hosts g s (record {
        metrics = (advance hosts g asked s.metrics f.route_prefix f.phase).0;
        flights = before ++ (advance hosts g asked s.metrics f.route_prefix f.phase).1 ∷ after;
      })
  sets_gauges :
      (breaker_state : ℕ) (active : Text)
      → Step hosts g s (record s {
        metrics = set_active_backend active (record s.metrics { breaker_state = breaker_state });
      })

pub data Reach {E : Type 0} (hosts : Hosts) (g : Gateway) (s : System E) : System E → Type 0 where
  here : Reach hosts g s s
  later : {t u : System E} → Reach hosts g s t → Step hosts g t u → Reach hosts g s u
