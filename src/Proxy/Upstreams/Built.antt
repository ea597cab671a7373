-- ===== src/Proxy/Upstreams/Built.antt =====
-- internal/proxy/gateway.go: what NewGateway builds from a configuration that parsed.
use turnike.Common.{
  Option, some, List, [], ◌∷◌, All, All-In, In, map, Text, ok, ◌≡◌, ◌≢◌, inl, inr, refl, sym, ap,
  subst, ◌∙◌,
}
use turnike.Config.{Config, Route}
use turnike.Config.Validate.{Url, Decoded, parse, normalize}
use turnike.Config.Validate.Routes.{Distinct}
use turnike.Config.Validate.Sound.{parse-IsSound}
use turnike.Config.Validate.Upstreams.{HasUpstream, parse-HasUpstream}
use turnike.Metrics.{Label, SeriesKey, Metrics, init_route}
use turnike.Metrics.Series.{IsSeries, init_route-IsSeries, total}
use turnike.Proxy.Table.{Entry, compile, new_table}
use turnike.Proxy.Table.Longest.{In-sort, In-compile}
use turnike.Proxy.Upstreams.Proxies.{
  init_all, collected, build_proxies-collected, own, collected-own, own-eq,
}
use turnike.Proxy.Upstreams.{ReverseProxy, Gateway, with_proxies, new_gateway, proxy_of}

not_among :
    (rs : List Route) (s : Route) (t : Text)
    → All (λ u. t ≢ u) (map (λ x. normalize x.prefix) rs)
    → In s rs
    → t ≢ normalize s.prefix
not_among [] s t d n = absurd n
not_among (y ∷ rs) s t (d, ds) (inl b) = λ e. d (e ∙ ap (λ z. normalize z.prefix) b)
not_among (y ∷ rs) s t (d, ds) (inr n) = not_among rs s t ds n

-- Two configured routes with one normalized prefix are one route.
route_of_prefix :
    (rs : List Route) (r s : Route)
    → Distinct (map (λ x. normalize x.prefix) rs)
    → In r rs
    → In s rs
    → normalize r.prefix ≡ normalize s.prefix
    → r ≡ s
route_of_prefix [] r s d m n e = absurd m
route_of_prefix (x ∷ rs) r s (d, ds) (inl a) (inl b) e = a ∙ sym b
route_of_prefix (x ∷ rs) r s (d, ds) (inl a) (inr n) e =
    absurd (not_among rs s (normalize x.prefix) d n (ap (λ y. normalize y.prefix) (sym a) ∙ e))
route_of_prefix (x ∷ rs) r s (d, ds) (inr m) (inl b) e =
    absurd (not_among rs r (normalize x.prefix) d m (ap (λ y. normalize y.prefix) (sym b) ∙ sym e))
route_of_prefix (x ∷ rs) r s (d, ds) (inr m) (inr n) e = route_of_prefix rs r s ds m n e

module _ (parse_url : Text → Option Url) where
  init_all-IsSeries :
      (es : List Entry) (m : Metrics) (k : SeriesKey)
      → IsSeries k m.requests_total
      → IsSeries k (init_all parse_url es m).requests_total
  unfolding init_all
  init_all-IsSeries [] m k h = h
  init_all-IsSeries (e ∷ es) m k h =
      init_all-IsSeries es (init_route e.route.prefix m) k
        ((init_route-IsSeries e.route.prefix m).1 k h)

  init_all-IsSeries_own :
      (es : List Entry) (m : Metrics) (e : Entry) (l : Label)
      → In e es
      → IsSeries (e.route.prefix, l) (init_all parse_url es m).requests_total
  unfolding init_all
  init_all-IsSeries_own [] m e l h = absurd h
  init_all-IsSeries_own (x ∷ es) m e l (inl same) =
      init_all-IsSeries es (init_route x.route.prefix m) (e.route.prefix, l)
        (subst (λ d. IsSeries (d.route.prefix, l) (init_route x.route.prefix m).requests_total)
          (sym same) ((init_route-IsSeries x.route.prefix m).0 l))
  init_all-IsSeries_own (x ∷ es) m e l (inr h) =
      init_all-IsSeries_own es (init_route x.route.prefix m) e l h

  init_all-total :
      (es : List Entry) (m : Metrics)
      → (total (init_all parse_url es m).requests_total ≡ total m.requests_total)
        × ((init_all parse_url es m).request_duration ≡ m.request_duration)
  unfolding init_all init_route
  init_all-total [] m = (refl, refl)
  init_all-total (e ∷ es) m =
      let (counted, observed) = init_all-total es (init_route e.route.prefix m) in
      let (_, _, none_counted) = init_route-IsSeries e.route.prefix m in
      (counted ∙ none_counted, observed)

  All-entries :
      (rs : List Route) (es : List Entry)
      → All (HasUpstream parse_url) rs
      → ((e : Entry) → In e es → In e.route rs)
      → All (λ e. HasUpstream parse_url e.route) es
  All-entries rs [] h k = tt
  All-entries rs (e ∷ es) h k = (
    All-In (HasUpstream parse_url) rs h (k e (inl refl)),
    All-entries rs es h (λ d m. k d (inr m)),
  )

  -- An entry of the table is a configured route with its normalized prefix.
  pub table_entry :
      (rs : List Route) (e : Entry)
      → In e (new_table rs)
      → In e.route rs × (e.prefix ≡ normalize e.route.prefix)
  unfolding new_table
  table_entry rs e m =
      let (r, listed, same) = In-compile e rs (In-sort e (map compile rs) m) in
      subst (λ x. In x.route rs × (x.prefix ≡ normalize x.route.prefix)) (sym same) (listed, refl)

  -- What NewGateway has to have built for an entry of the table.
  pub record IsProxied (g : Gateway) (m : Metrics) (e : Entry) : Type 0 where
    pub proxy : ReverseProxy
    pub found : proxy_of g e ≡ some proxy
    pub upstream : proxy.upstream ≡ e.route.upstream
    pub target : parse_url e.route.upstream ≡ some proxy.target
    pub series : (l : Label) → IsSeries (e.route.prefix, l) m.requests_total

  module _ (d : Decoded) (c : Config) (on_error : Text) (m : Metrics)
      (parsed : parse parse_url d ≡ ok c) where
    abbrev pub upstreams : All (HasUpstream parse_url) c.routes
    upstreams = parse-HasUpstream parse_url d c parsed

    pub known : All (λ e. HasUpstream parse_url e.route) (new_table c.routes)
    known =
        All-entries c.routes (new_table c.routes) upstreams (λ x h. (table_entry c.routes x h).0)

    unfoldable pub built : Gateway
    built = record {
      table = new_table c.routes;
      proxies = collected parse_url (new_table c.routes) known [];
      on_error = on_error;
    }

    -- NewGateway succeeds, and counts and observes nothing.
    pub new_gateway-built :
        (new_gateway parse_url c.routes on_error m
          ≡ (init_all parse_url (new_table c.routes) m, ok built))
        × (total (init_all parse_url (new_table c.routes) m).requests_total
            ≡ total m.requests_total)
        × ((init_all parse_url (new_table c.routes) m).request_duration ≡ m.request_duration)
    unfolding new_gateway with_proxies built
    new_gateway-built = (
      ap (with_proxies (new_table c.routes) on_error)
          (build_proxies-collected parse_url (new_table c.routes) known m []),
      (init_all-total (new_table c.routes) m).0,
      (init_all-total (new_table c.routes) m).1,
    )

    pub built-IsProxied :
        (e : Entry)
        → In e (new_table c.routes)
        → IsProxied built (init_all parse_url (new_table c.routes) m) e
    unfolding built
    built-IsProxied e listed =
        let (configured, prefix) = table_entry c.routes e listed in
        let k = All-In (HasUpstream parse_url) c.routes upstreams configured in
        record {
          proxy = own parse_url e k;
          found = collected-own parse_url (new_table c.routes) known [] e k listed (λ x h same g.
              let (there, normal) = table_entry c.routes x h in
              own-eq parse_url x e g k (
                route_of_prefix c.routes x.route e.route
                  (parse-IsSound parse_url d c parsed).distinct there configured
                  (sym normal ∙ (same ∙ prefix))));
          upstream = refl;
          target = k.1;
          series = λ l. init_all-IsSeries_own (new_table c.routes) m e l listed;
        }

  -- From a configuration that parsed, whatever the policy, NewGateway builds a gateway with the
  -- configuration's table, in which an entry of the table has its own route's reverse proxy: the one
  -- under its prefix names the route's upstream, and sends to the URL that this upstream reads as.
  -- All of the route's series are made.
  pub new_gateway-IsProxied :
      (d : Decoded) (c : Config) (on_error : Text) (m : Metrics) (e : Entry)
      → parse parse_url d ≡ ok c
      → In e (new_table c.routes)
      → (m' : Metrics) × (g : Gateway) × (new_gateway parse_url c.routes on_error m ≡ (m', ok g))
        × (g.table ≡ new_table c.routes)
        × (g.on_error ≡ on_error)
        × IsProxied g m' e
  unfolding built
  new_gateway-IsProxied d c on_error m e parsed listed = (
    init_all parse_url (new_table c.routes) m,
    built d c on_error m parsed,
    (new_gateway-built d c on_error m parsed).0,
    refl,
    refl,
    built-IsProxied d c on_error m parsed e listed,
  )
