-- ===== src/Proxy/Upstreams/Proxies.antt =====
-- internal/proxy/gateway.go: the loop of NewGateway and the proxies that it collects.
use turnike.Common.{
  Option, some, List, [], ◌∷◌, All, In, insert, lookup, lookup-insert, Text, text_eq, text_eq_iff,
  ok, ◌≡◌, inl, inr, refl, sym, ap, ◌∙◌, Bool-cases,
}
use turnike.Config.Validate.{Url}
use turnike.Config.Validate.Upstreams.{HasUpstream}
use turnike.Metrics.{Metrics, init_route}
use turnike.Proxy.Table.{Entry}
use turnike.Proxy.Upstreams.{ReverseProxy, with_target, build_proxies}

module _ (parse_url : Text → Option Url) where
  -- The loop's metrics, which no outcome changes.
  unfoldable pub init_all : List Entry → Metrics → Metrics
  init_all [] m = m
  init_all (e ∷ es) m = init_all es (init_route e.route.prefix m)

  -- The proxies that the loop ends with where every upstream is readable.
  pub collected :
      (es : List Entry)
      → All (λ e. HasUpstream parse_url e.route) es
      → List (Text × ReverseProxy)
      → List (Text × ReverseProxy)
  collected [] h ps = ps
  collected (e ∷ es) (h, hs) ps =
      collected es hs
        (insert text_eq e.prefix (record { target = h.0; upstream = e.route.upstream }) ps)

  pub build_proxies-collected :
      (es : List Entry) (h : All (λ e. HasUpstream parse_url e.route) es) (m : Metrics)
      (ps : List (Text × ReverseProxy))
      → build_proxies parse_url es m ps ≡ (init_all es m, ok (collected es h ps))
  unfolding build_proxies init_all collected with_target
  build_proxies-collected [] h m ps = refl
  build_proxies-collected (e ∷ es) (h, hs) m ps = rw h.1 (
      build_proxies-collected es hs (init_route e.route.prefix m)
        (insert text_eq e.prefix (record { target = h.0; upstream = e.route.upstream }) ps))

  -- The proxy of an entry.
  abbrev pub own : (e : Entry) → HasUpstream parse_url e.route → ReverseProxy
  own e h = record { target = h.0; upstream = e.route.upstream }

  collected-kept :
      (es : List Entry) (h : All (λ e. HasUpstream parse_url e.route) es)
      (ps : List (Text × ReverseProxy)) (p : ReverseProxy) (prefix : Text)
      → lookup text_eq prefix ps ≡ some p
      → ((d : Entry)
          → In d es
          → d.prefix ≡ prefix
          → (g : HasUpstream parse_url d.route) → own d g ≡ p)
      → lookup text_eq prefix (collected es h ps) ≡ some p
  unfolding collected
  collected-kept [] h ps p prefix stored only = stored
  collected-kept (e ∷ es) (h, hs) ps p prefix stored only =
      collected-kept es hs _ p prefix again (λ d m. only d (inr m))
    where
      again : lookup text_eq prefix (insert text_eq e.prefix (own e h) ps) ≡ some p
      again = elim (Bool-cases (text_eq e.prefix prefix)) [
        | inl same ↦
            lookup-insert text_eq text_eq_iff e.prefix prefix (own e h) ps
            ∙ rw same (ap some (only e (inl refl) ((text_eq_iff e.prefix prefix).0 same) h))
        | inr other ↦
            lookup-insert text_eq text_eq_iff e.prefix prefix (own e h) ps ∙ rw other stored
      ]

  -- An entry that shares its prefix with no other finds its own proxy.
  pub collected-own :
      (es : List Entry) (h : All (λ e. HasUpstream parse_url e.route) es)
      (ps : List (Text × ReverseProxy)) (e : Entry) (k : HasUpstream parse_url e.route)
      → In e es
      → ((d : Entry)
          → In d es
          → d.prefix ≡ e.prefix
          → (g : HasUpstream parse_url d.route) → own d g ≡ own e k)
      → lookup text_eq e.prefix (collected es h ps) ≡ some (own e k)
  unfolding collected
  collected-own [] h ps e k m only = absurd m
  collected-own (x ∷ es) (h, hs) ps e k (inl same) only =
      collected-kept es hs _ (own e k) e.prefix
        (lookup-insert text_eq text_eq_iff x.prefix e.prefix (own x h) ps
          ∙ rw ((text_eq_iff x.prefix e.prefix).1 (ap (λ d. d.prefix) (sym same)))
              (ap some (only x (inl refl) (ap (λ d. d.prefix) (sym same)) h)))
        (λ d m. only d (inr m))
  collected-own (x ∷ es) (h, hs) ps e k (inr m) only =
      collected-own es hs _ e k m (λ d n. only d (inr n))

  some_url : {u v : Url} → some u ≡ some v → u ≡ v
  some_url e = cc

  -- Two readings of one upstream agree.
  pub own-eq :
      (d e : Entry) (g : HasUpstream parse_url d.route) (k : HasUpstream parse_url e.route)
      → d.route ≡ e.route
      → own d g ≡ own e k
  own-eq d e (u, pu, _) (v, pv, _) same =
      let agree : u ≡ v = some_url (sym pu ∙ (ap (λ r. parse_url r.upstream) same ∙ pv)) in
      rw (agree, same) refl
