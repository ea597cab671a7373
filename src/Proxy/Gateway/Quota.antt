-- ===== src/Proxy/Gateway/Quota.antt =====
-- The gateway over the memory backend: what one client of a route gets through, among the
-- requests of all clients to all routes.
use turnike.Common.{
  length, pos, ◌<ℤ◌, ◌≤ℤ◌, pos_part, ◌≤◌, Bool, true, false, ◌&&◌, Option, none, some, List, [],
  ◌∷◌, Pairwise, All, lookup, Text, text_eq, Result, ok, err, ◌≡◌, refl, ap₂, if◌then◌else◌,
  Bool-cases, Option-cases, inl, inr,
}
use turnike.Config.{Limit, algo_sliding_window, algo_fixed_window, on_error_fail_closed}
use turnike.Limiter.{Time, Decision}
use turnike.Limiter.Float.{Float}
use turnike.Limiter.SlidingWindow.Quota.{count_within}
use turnike.Limiter.Memory.{MemoryLimiter, AllowError}
use turnike.Limiter.Memory.Isolation
use turnike.Limiter.Memory.Isolation.{is_for}
use turnike.Limiter.Memory.Quota.{granted, admitted_for, HasLimit, admitted_for-quota}
use turnike.Limiter.Memory.Quota.Fixed.{IsIn, admitted_for-window}
use turnike.Proxy.Identity.{Hosts, Request}
use turnike.Proxy.Paths.{has_dot_segments}
use turnike.Proxy.Table.{Entry, match}
use turnike.Proxy.Gateway.{
  Reply, answer, forward, World, quota_key, effective_limit, respond, serve, check, route,
  rate_limit_headers, limiter_unavailable, too_many_requests,
}
use turnike.Proxy.Gateway.System.{memory_backend}

-- A request with the instant at which the limiter reads the clock.
pub record Timed : Type 0 where
  pub now : Time
  pub request : Request

-- The reply is the upstream's, within the quota: it carries the quota's headers, which a reply
-- without a decision does not.
abbrev pub is_within_quota : Reply → Bool
is_within_quota (answer status hs) = false
is_within_quota (forward e []) = false
is_within_quota (forward e (h ∷ hs)) = true

respond-is_within_quota :
    (on_error : Text) (e : Entry) (o : Result AllowError Decision)
    → is_within_quota (respond on_error e o) ≡ granted o
unfolding respond rate_limit_headers limiter_unavailable too_many_requests
respond-is_within_quota on_error e (ok d) = elim (Bool-cases d.allowed) [
  | inl free ↦ rw free refl
  | inr denied ↦ rw denied refl
]
respond-is_within_quota on_error e (err x) =
    elim (Bool-cases (text_eq on_error on_error_fail_closed)) [
      | inl same ↦ rw same refl
      | inr other ↦ rw other refl
    ]

module _ (fl : Float) (hosts : Hosts) where
  open fl use {F}

  -- What the limiter is asked for a request that reaches it.
  abbrev asks_for : Timed → Entry → Isolation.Request
  asks_for t e = record {
    key = quota_key hosts e t.request;
    limit = effective_limit hosts e t.request;
    now = t.now;
  }

  abbrev matched : List Entry → Timed → Option Entry
  matched table t =
      if has_dot_segments t.request.path then none else match table t.request.escaped_path

  abbrev pub asked_of : Timed → Option Entry → List Isolation.Request → List Isolation.Request
  asked_of t none rest = rest
  asked_of t (some e) rest = asks_for t e ∷ rest

  abbrev pub all_asked : List Entry → List Timed → List Isolation.Request
  all_asked table [] = []
  all_asked table (t ∷ ts) = asked_of t (matched table t) (all_asked table ts)

  abbrev is_under : Text → Timed → Option Entry → Bool
  is_under sk t none = false
  is_under sk t (some e) = is_for sk (asks_for t e)

  -- The instants of the requests under one state key that get through within the quota, among all that
  -- the gateway serves.
  unfoldable pub passed_for :
      List Entry → Text → Text → World (MemoryLimiter F) → List Timed → List Time
  passed_for table on_error sk w [] = []
  passed_for table on_error sk w (t ∷ ts) =
      let (w', reply) = serve (memory_backend fl hosts t.now) hosts table on_error t.request w in
      let rest = passed_for table on_error sk w' ts in
      if is_under sk t (matched table t) && is_within_quota reply then t.now ∷ rest else rest

  passed_for-admitted_for :
      (table : List Entry) (on_error sk : Text) (w : World (MemoryLimiter F)) (ts : List Timed)
      → passed_for table on_error sk w ts ≡ admitted_for fl sk w.limiter (all_asked table ts)
  unfolding passed_for admitted_for serve route check
  passed_for-admitted_for table on_error sk w [] = refl
  passed_for-admitted_for table on_error sk w (t ∷ ts) =
      elim (Bool-cases (has_dot_segments t.request.path)) [
        | inl dots ↦ rw dots (passed_for-admitted_for table on_error sk w ts)
        | inr plain ↦ elim (Option-cases (match table t.request.escaped_path)) [
          | inl missing ↦ rw (plain, missing) (passed_for-admitted_for table on_error sk w ts)
          | inr (e, found) ↦
              rw (plain, found)
                (ap₂ (λ b rest. if is_for sk (asks_for t e) && b then t.now ∷ rest else rest)
                  (respond-is_within_quota on_error e
                    (memory_backend fl hosts t.now (quota_key hosts e t.request)
                      (effective_limit hosts e t.request) w.limiter).1)
                  (passed_for-admitted_for table on_error sk
                    (check (memory_backend fl hosts t.now) hosts on_error t.request w e).0 ts))
        ]
      ]

  all_asked-All :
      (table : List Entry) (now : Time) (ts : List Timed)
      → All (λ t. now ≤ℤ t.now) ts
      → All (λ r. now ≤ℤ r.now) (all_asked table ts)
  all_asked-All table now [] h = tt
  all_asked-All table now (t ∷ ts) (le, h) = elim (Option-cases (matched table t)) [
    | inl missing ↦ rw missing (all_asked-All table now ts h)
    | inr (e, found) ↦ rw found (le, all_asked-All table now ts h)
  ]

  all_asked-Pairwise :
      (table : List Entry) (ts : List Timed)
      → Pairwise (λ s t. s.now ≤ℤ t.now) ts
      → Pairwise (λ q r. q.now ≤ℤ r.now) (all_asked table ts)
  all_asked-Pairwise table [] h = tt
  all_asked-Pairwise table (t ∷ ts) (h, hs) = elim (Option-cases (matched table t)) [
    | inl missing ↦ rw missing (all_asked-Pairwise table ts hs)
    | inr (e, found) ↦ rw found (all_asked-All table t.now ts h, all_asked-Pairwise table ts hs)
  ]

  -- Whatever requests of whatever clients the gateway serves, in order of time, and whatever the
  -- policy: of those under a state key that is new to the map and that share one sliding-window
  -- limit with a positive rate, at most the rate get through within the quota in any stretch as
  -- long as the window.
  pub passed_for-quota :
      (table : List Entry) (on_error sk : Text) (l : Limit) (c : Time) (w : World (MemoryLimiter F))
      (ts : List Timed)
      → pos 0 <ℤ l.rate
      → l.algorithm ≡ algo_sliding_window
      → HasLimit fl sk l (all_asked table ts)
      → Pairwise (λ s t. s.now ≤ℤ t.now) ts
      → lookup text_eq sk w.limiter.state ≡ none
      → count_within c l.window (passed_for table on_error sk w ts) ≤ pos_part l.rate
  passed_for-quota table on_error sk l c w ts p a h s new =
      rw (passed_for-admitted_for table on_error sk w ts) (
        admitted_for-quota fl sk l c w.limiter (all_asked table ts) p a h
          (all_asked-Pairwise table ts s) new)

  -- Whatever requests of whatever clients the gateway serves, in any order of time, and whatever the
  -- policy: of those under a state key that is new to the map, that share one fixed-window limit and
  -- fall in one window, at most the rate get through within the quota.
  pub passed_for-window :
      (table : List Entry) (on_error sk : Text) (l : Limit) (window : Time)
      (w : World (MemoryLimiter F)) (ts : List Timed)
      → l.algorithm ≡ algo_fixed_window
      → HasLimit fl sk l (all_asked table ts)
      → IsIn fl sk l window (all_asked table ts)
      → lookup text_eq sk w.limiter.state ≡ none
      → length (passed_for table on_error sk w ts) ≤ pos_part l.rate
  passed_for-window table on_error sk l window w ts a h inside new =
      rw (passed_for-admitted_for table on_error sk w ts)
        (admitted_for-window fl sk l window w.limiter (all_asked table ts) a h inside new)
