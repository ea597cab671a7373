-- ===== src/Proxy/Upstreams.antt =====
-- internal/proxy/gateway.go: NewGateway, which builds one reverse proxy for each route. The transport
-- that they share and the loggers are left out.
pub mod Proxies
pub mod Built
use turnike.Common.{
  Option, none, some, List, [], ◌∷◌, insert, lookup, Text, text_eq, Result, ok, err,
}
use turnike.Config.{Route}
use turnike.Config.Validate.{Url}
use turnike.Metrics.{Metrics, init_route}
use turnike.Proxy.Table.{Entry, new_table}

-- A reverse proxy: where it sends requests, and the upstream that its error handler names.
pub record ReverseProxy : Type 0 where
  pub target : Url
  pub upstream : Text

-- `proxies` is keyed by an entry's normalized prefix.
pub record Gateway : Type 0 where
  pub table : List Entry
  pub proxies : List (Text × ReverseProxy)
  pub on_error : Text

pub data GatewayError : Type 0 where
  upstream_unreadable : (prefix : Text) → (upstream : Text) → GatewayError

-- One round of the loop goes on with the rest, or returns the error.
with_target :
    Entry
    → (List (Text × ReverseProxy) → Metrics × Result GatewayError (List (Text × ReverseProxy)))
    → Metrics
    → List (Text × ReverseProxy)
    → Option Url
    → Metrics × Result GatewayError (List (Text × ReverseProxy))
with_target e rest m ps none = (m, err (upstream_unreadable e.route.prefix e.route.upstream))
with_target e rest m ps (some target) =
    rest (insert text_eq e.prefix (record { target = target; upstream = e.route.upstream }) ps)

-- The loop over the table's entries: the metrics' series are made, and the proxies collected.
pub build_proxies :
    (Text → Option Url)
    → List Entry
    → Metrics
    → List (Text × ReverseProxy)
    → Metrics × Result GatewayError (List (Text × ReverseProxy))
unfolding with_target
build_proxies parse_url [] m ps = (m, ok ps)
build_proxies parse_url (e ∷ es) m ps =
    let m' = init_route e.route.prefix m in
    with_target e (build_proxies parse_url es m') m' ps (parse_url e.route.upstream)

with_proxies :
    List Entry
    → Text
    → Metrics × Result GatewayError (List (Text × ReverseProxy))
    → Metrics × Result GatewayError Gateway
with_proxies table on_error (m, ok ps) =
    (m, ok (record { table = table; proxies = ps; on_error = on_error }))
with_proxies table on_error (m, err e) = (m, err e)

unfoldable pub new_gateway :
    (Text → Option Url) → List Route → Text → Metrics → Metrics × Result GatewayError Gateway
unfolding build_proxies with_proxies
new_gateway parse_url routes on_error m =
    with_proxies (new_table routes) on_error (build_proxies parse_url (new_table routes) m [])

-- The proxy that a matched entry's request goes to; a missing one would be a nil pointer.
abbrev pub proxy_of : Gateway → Entry → Option ReverseProxy
proxy_of g e = lookup text_eq e.prefix g.proxies
