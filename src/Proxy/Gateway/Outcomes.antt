-- ===== src/Proxy/Gateway/Outcomes.antt =====
-- internal/proxy/gateway.go, who gets through: the gateway's answer to each outcome, and what it
-- counts.
use turnike.Common.{
  true, false, none, some, List, [], ◌∷◌, Text, text_eq, text_eq_iff, Result, ok, err, ◌≡◌, ◌≢◌,
  ◌⊎◌, ◌↔◌, inl, inr, refl, arith, Bool-cases,
}
use turnike.Config.{Limit, on_error_fail_closed}
use turnike.Limiter.{Decision}
use turnike.Proxy.Identity.{Hosts, Request}
use turnike.Proxy.Paths.{has_dot_segments}
use turnike.Proxy.Table.{Entry, match}
use turnike.Proxy.Gateway.{
  Reply, Header, answer, forward, World, quota_key, effective_limit, decision_label, respond, serve,
  check, route, rate_limit_headers, limiter_unavailable, too_many_requests,
}

-- A request goes to an entry's upstream exactly if it is admitted, or the limiter failed and the
-- policy is not fail_closed.
abbrev pub Passes {κ} : {E : Type κ} → Text → Result E Decision → Type 0
Passes on_error (ok d) = d.allowed ≡ true
Passes on_error (err e) = on_error ≢ on_error_fail_closed

respond-forward {κ} :
    {E : Type κ} (on_error : Text) (e : Entry) (o : Result E Decision)
    → ((hs : List Header) × (respond on_error e o ≡ forward e hs)) ↔ Passes on_error o
unfolding respond too_many_requests limiter_unavailable
respond-forward on_error e (ok d) = elim (Bool-cases d.allowed) [
  | inl granted ↦ (λ h. granted, λ h. (rate_limit_headers d, rw granted))
  | inr refused ↦ (λ h. ground (arith, refused, h.1), λ h. cc)
]
respond-forward on_error e (err x) = elim (Bool-cases (text_eq on_error on_error_fail_closed)) [
  | inl same ↦ (
    λ h. ground (arith, same, h.1),
    λ h. absurd (h ((text_eq_iff on_error on_error_fail_closed).0 same)),
  )
  | inr other ↦ (λ h e. cc ((text_eq_iff on_error on_error_fail_closed).1 e), λ h. ([], rw other))
]

-- What the client of a matched request gets: the upstream's answer, a 429, or under fail_closed a 503.
abbrev pub IsReply : Text → Entry → Reply → Type 0
IsReply on_error e reply =
    ((hs : List Header) × (reply ≡ forward e hs))
    ⊎ (((hs : List Header) × (reply ≡ answer 429 hs))
        ⊎ ((on_error ≡ on_error_fail_closed) × ((hs : List Header) × (reply ≡ answer 503 hs))))

respond-IsReply {κ} :
    {E : Type κ} (on_error : Text) (e : Entry) (o : Result E Decision)
    → IsReply on_error e (respond on_error e o)
unfolding respond too_many_requests limiter_unavailable
respond-IsReply on_error e (ok d) = elim (Bool-cases d.allowed) [
  | inl granted ↦ rw granted (inl (_, refl))
  | inr refused ↦ rw refused (inr (inl (_, refl)))
]
respond-IsReply on_error e (err x) = elim (Bool-cases (text_eq on_error on_error_fail_closed)) [
  | inl same ↦ rw same (inr (inr ((text_eq_iff on_error on_error_fail_closed).0 same, (_, refl))))
  | inr other ↦ inl ([], rw other refl)
]

module _ {ℓ κ} {S : Type ℓ} {E : Type κ} (limiter : Text → Limit → S → S × Result E Decision)
    (hosts : Hosts) where
  -- A request with dot segments or without a route gets a 404, and neither the limiter nor the
  -- metrics see it.
  pub serve-unrouted :
      (table : List Entry) (on_error : Text) (r : Request) (w : World S)
      → (has_dot_segments r.path ≡ true) ⊎ (match table r.escaped_path ≡ none)
      → serve limiter hosts table on_error r w ≡ (w, answer 404 [])
  unfolding serve
  serve-unrouted table on_error r w h = ground arith

  -- A matched request asks the limiter exactly once, under the entry's prefix and the client's
  -- identity and with the client's effective limit; it is counted exactly once, under the route's
  -- configured prefix, which the middleware is told; and it is forwarded exactly if it is
  -- admitted, or the limiter gave no decision and the policy is not fail_closed.
  pub serve-matched :
      (table : List Entry) (on_error : Text) (r : Request) (w : World S) (e : Entry)
      → has_dot_segments r.path ≡ false
      → match table r.escaped_path ≡ some e
      → let asked = limiter (quota_key hosts e r) (effective_limit hosts e r) w.limiter in
        let (w', reply) = serve limiter hosts table on_error r w in
        (w'.limiter ≡ asked.0)
        × (w'.requests_total ≡ (e.route.prefix, decision_label asked.1) ∷ w.requests_total)
        × (w'.route_prefix ≡ e.route.prefix)
        × (((hs : List Header) × (reply ≡ forward e hs)) ↔ Passes on_error asked.1)
  unfolding serve check route
  serve-matched table on_error r w e plain found =
      rw (plain, found)
        (
          refl,
          refl,
          refl,
          respond-forward on_error e
              (limiter (quota_key hosts e r) (effective_limit hosts e r) w.limiter).1,
        )

  pub serve-IsReply :
      (table : List Entry) (on_error : Text) (r : Request) (w : World S) (e : Entry)
      → has_dot_segments r.path ≡ false
      → match table r.escaped_path ≡ some e
      → IsReply on_error e (serve limiter hosts table on_error r w).1
  unfolding serve check route
  serve-IsReply table on_error r w e plain found =
      rw (plain, found)
        (respond-IsReply on_error e
          (limiter (quota_key hosts e r) (effective_limit hosts e r) w.limiter).1)
