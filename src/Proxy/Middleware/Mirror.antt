-- ===== src/Proxy/Middleware/Mirror.antt =====
-- internal/proxy/middleware.go and gateway.go: the histogram beside the counter.
use turnike.Common.{
  suc, true, false, Option, none, some, refl, [], ◌∷◌, All-In, length, Text, text_eq, starts_with,
  codes, Result, ok, ◌≡◌, ◌⊎◌, inl, inr, ap, arith, Bool-cases, Option-cases,
}
use turnike.Config.{Config, Limit}
use turnike.Config.Validate.{Url, Decoded, parse}
use turnike.Config.Validate.Routes.{IsValidRoute}
use turnike.Config.Validate.Sound.{parse-IsSound}
use turnike.Limiter.{Decision}
use turnike.Proxy.Identity.{Hosts, Request}
use turnike.Proxy.Paths.{has_dot_segments}
use turnike.Proxy.Table.{Entry, match, new_table}
use turnike.Proxy.Table.Longest.{match-longest}
use turnike.Proxy.Gateway.Outcomes.{serve-unrouted, serve-matched, IsReply, serve-IsReply}
use turnike.Metrics.{Label}
use turnike.Proxy.Gateway.{Reply, answer}
use turnike.Proxy.Middleware.{Observed, observe, middleware}

pub rooted_ne : (t : Text) → starts_with t (codes "/") ≡ true → text_eq t [] ≡ false
unfolding starts_with text_eq
rooted_ne t h = ground arith

module _ {ℓ κ} {S : Type ℓ} {E : Type κ} (limiter : Text → Limit → S → S × Result E Decision)
    (hosts : Hosts) where
  -- How a request ends: with a 404 that changes nothing but the holder, or at a route, counted and
  -- observed once.
  abbrev pub Ends : Config → Text → Request → Observed S → Text × Observed S × Reply → Type ℓ
  Ends c on_error r o (id, o', reply) =
      ((o' ≡ record o { world = record o.world { route_prefix = [] } }) × (reply ≡ answer 404 []))
      ⊎ ((e : Entry) × (l : Label) × (match (new_table c.routes) r.escaped_path ≡ some e)
          × (o'.world.requests_total ≡ (e.route.prefix, l) ∷ o.world.requests_total)
          × (o'.observations ≡ suc o.observations)
          × IsReply on_error e reply)

  pub middleware-Ends :
      (parse_url : Text → Option Url) (d : Decoded) (c : Config) (on_error : Text) (fresh : Text)
      (inbound : Text) (r : Request) (o : Observed S)
      → parse parse_url d ≡ ok c
      → Ends c on_error r o
          (middleware limiter hosts (new_table c.routes) on_error fresh inbound r o)
  unfolding middleware observe text_eq
  middleware-Ends parse_url d c on_error fresh inbound r o parsed =
      let table = new_table c.routes in
      let w = record o.world { route_prefix = [] } in
      let unrouted : (has_dot_segments r.path ≡ true) ⊎ (match table r.escaped_path ≡ none)
          → Ends c on_error r o (middleware limiter hosts table on_error fresh inbound r o) =
        λ u. inl (rw (serve-unrouted limiter hosts table on_error r w u) (refl, refl)) in
      elim (Bool-cases (has_dot_segments r.path)) [
        | inl dots ↦ unrouted (inl dots)
        | inr plain ↦ elim (Option-cases (match table r.escaped_path)) [
          | inl missing ↦ unrouted (inr missing)
          | inr (e, found) ↦
              let (listed, _, _, _) = match-longest c.routes r.escaped_path e found in
              let valid =
                All-In IsValidRoute c.routes (parse-IsSound parse_url d c parsed).routes listed in
              let filled = rooted_ne e.route.prefix valid.rooted in
              let (_, counted, told, _) =
                serve-matched limiter hosts table on_error r w e plain found in
              inr (
                e,
                _,
                found,
                counted,
                rw (told, filled) refl,
                serve-IsReply limiter hosts table on_error r w e plain found,
              )
        ]
      ]

  -- As many observations as increments.
  abbrev pub Mirrors : Observed S → Type 0
  Mirrors o = o.observations ≡ length o.world.requests_total

  -- Under a configuration that parsed, a request through the middleware keeps the histogram's
  -- observations as many as the counter's increments, whether it is routed or not.
  middleware-Mirrors :
      (parse_url : Text → Option Url) (d : Decoded) (c : Config) (on_error : Text) (fresh : Text)
      (inbound : Text) (r : Request) (o : Observed S)
      → parse parse_url d ≡ ok c
      → Mirrors o
      → Mirrors (middleware limiter hosts (new_table c.routes) on_error fresh inbound r o).1
  middleware-Mirrors parse_url d c on_error fresh inbound r o parsed h =
      elim (middleware-Ends parse_url d c on_error fresh inbound r o parsed) [
        | inl (same, _) ↦ rw same h
        | inr (e, l, _, counted, observed, _) ↦ rw (counted, observed) (ap suc h)
      ]
