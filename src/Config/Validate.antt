-- ===== src/Config/Validate.antt =====
-- internal/config/config.go: Config.applyDefaults, Config.validate, Route.validate and Parse.
-- The YAML decoder and url.Parse are parameters.
pub mod Routes
pub mod Sound
pub mod Upstreams
pub mod Usable
pub mod Complete
use turnike.Common.{
  ℤ, pos, ltb_ℤ, eq_ℤ, Bool, true, false, not, ◌&&◌, ◌||◌, Option, none, some, List, [], ◌∷◌, map,
  Text, text_eq, starts_with, trim_right, codes, Result, ok, err, ◌>>=◌, ◌>>◌, if◌then◌else◌,
}
use turnike.Config.{
  Limit, Route, Duration, Server, Upstream, Redis, Limiter, Config, backend_memory, backend_redis,
  on_error_fail_open, on_error_fail_closed, on_error_degrade,
}
use turnike.Config.Limits.{LimitError, with_defaults, validate_limit, limit_for}

pub data RouteError : Type 0 where
  prefix_not_rooted : Text → RouteError
  upstream_unreadable : Text → RouteError
  upstream_not_absolute : Text → RouteError
  limit_invalid : LimitError → RouteError
  empty_api_key : RouteError
  override_invalid : Text → LimitError → RouteError

pub data ConfigError : Type 0 where
  negative_duration : Text → Duration → ConfigError
  redis_without_addr : ConfigError
  unknown_backend : Text → ConfigError
  unknown_on_error : Text → ConfigError
  no_routes : ConfigError
  route_invalid : RouteError → ConfigError
  duplicate_prefix : Text → ConfigError
  empty_document : ConfigError
  malformed : ConfigError
  several_documents : ConfigError

default_duration : Duration → Duration → Duration
default_duration def d = if eq_ℤ d (pos 0) then def else d

abbrev default_text : Text → Text → Text
default_text def t = if text_eq t [] then def else t

abbrev server_defaults : Server → Server
server_defaults s = record s {
  listen = default_text (codes ":8080") s.listen;
  read_header_timeout = default_duration (pos 5000000000) s.read_header_timeout;
  read_timeout = default_duration (pos 30000000000) s.read_timeout;
  write_timeout = default_duration (pos 60000000000) s.write_timeout;
  idle_timeout = default_duration (pos 120000000000) s.idle_timeout;
  shutdown_timeout = default_duration (pos 10000000000) s.shutdown_timeout;
}

abbrev upstream_defaults : Upstream → Upstream
upstream_defaults u = record {
  dial_timeout = default_duration (pos 5000000000) u.dial_timeout;
  response_header_timeout = default_duration (pos 10000000000) u.response_header_timeout;
}

abbrev limiter_defaults : Limiter → Limiter
limiter_defaults l = record {
  backend = default_text backend_memory l.backend;
  redis = record { addr = l.redis.addr; on_error = default_text on_error_degrade l.redis.on_error };
}

abbrev route_defaults : Route → Route
route_defaults r = record r { limit = with_defaults r.limit }

pub apply_defaults : Config → Config
unfolding default_duration
apply_defaults c = record {
  server = server_defaults c.server;
  upstream = upstream_defaults c.upstream;
  limiter = limiter_defaults c.limiter;
  routes = map route_defaults c.routes;
}

-- The part of a url.URL that the validation reads.
pub record Url : Type 0 where
  pub scheme : Text
  pub host : Text

abbrev pub is_absolute : Url → Bool
is_absolute u =
    (text_eq u.scheme (codes "http") || text_eq u.scheme (codes "https")) && not (text_eq u.host [])

check_upstream : Text → Option Url → Result RouteError (Unit {0})
check_upstream t none = err (upstream_unreadable t)
check_upstream t (some u) = if is_absolute u then ok tt else err (upstream_not_absolute t)

abbrev wrap {κ ι} : {E : Type κ} {F : Type ι} → (E → F) → Result E (Unit {0}) → Result F (Unit {0})
wrap f (ok u) = ok u
wrap f (err e) = err (f e)

-- The loop over the keys of KeyOverrides, in the list's order; Go's map has none.
check_overrides : Route → List (Text × Limit) → Result RouteError (Unit {0})
check_overrides r [] = ok tt
check_overrides r ((key, _) ∷ m) =
    (if text_eq key []
      then err empty_api_key
      else wrap (override_invalid key) (validate_limit (limit_for r key)))
    >> check_overrides r m

pub validate_route : (Text → Option Url) → Route → Result RouteError (Unit {0})
unfolding check_upstream check_overrides
validate_route parse_url r = do
  if starts_with r.prefix (codes "/") then ok tt else err (prefix_not_rooted r.prefix)
  check_upstream r.upstream (parse_url r.upstream)
  wrap limit_invalid (validate_limit r.limit)
  check_overrides r r.key_overrides

-- A prefix without its trailing slashes.
abbrev pub normalize : Text → Text
normalize prefix = trim_right b'/' prefix

pub member : Text → List Text → Bool
member t [] = false
member t (s ∷ ss) = text_eq s t || member t ss

-- The loop over the routes; `seen` holds the normalized prefixes so far.
pub check_routes : (Text → Option Url) → List Text → List Route → Result ConfigError (Unit {0})
unfolding validate_route member
check_routes parse_url seen [] = ok tt
check_routes parse_url seen (r ∷ rs) =
    wrap route_invalid (validate_route parse_url r)
    >> ((if member (normalize r.prefix) seen then err (duplicate_prefix r.prefix) else ok tt)
        >> check_routes parse_url (normalize r.prefix ∷ seen) rs)

check_durations : List (Text × Duration) → Result ConfigError (Unit {0})
check_durations [] = ok tt
check_durations ((name, d) ∷ ds) =
    (if ltb_ℤ d (pos 0) then err (negative_duration name d) else ok tt) >> check_durations ds

abbrev durations : Config → List (Text × Duration)
durations c =
    (codes "server.read_header_timeout", c.server.read_header_timeout)
    ∷ (codes "server.read_timeout", c.server.read_timeout)
    ∷ (codes "server.write_timeout", c.server.write_timeout)
    ∷ (codes "server.idle_timeout", c.server.idle_timeout)
    ∷ (codes "server.shutdown_timeout", c.server.shutdown_timeout)
    ∷ (codes "upstream.dial_timeout", c.upstream.dial_timeout)
    ∷ (codes "upstream.response_header_timeout", c.upstream.response_header_timeout)
    ∷ []

check_backend : Limiter → Result ConfigError (Unit {0})
check_backend l =
    if text_eq l.backend backend_memory
    then ok tt
    else (if text_eq l.backend backend_redis
        then (if text_eq l.redis.addr [] then err redis_without_addr else ok tt)
        else err (unknown_backend l.backend))

check_on_error : Redis → Result ConfigError (Unit {0})
check_on_error r =
    if text_eq r.on_error on_error_fail_open
      || (text_eq r.on_error on_error_fail_closed || text_eq r.on_error on_error_degrade)
    then ok tt
    else err (unknown_on_error r.on_error)

check_some : List Route → Result ConfigError (Unit {0})
check_some [] = err no_routes
check_some (r ∷ rs) = ok tt

pub validate : (Text → Option Url) → Config → Result ConfigError (Unit {0})
unfolding check_durations check_backend check_on_error check_some check_routes
validate parse_url c = do
  check_durations (durations c)
  check_backend c.limiter
  check_on_error c.limiter.redis
  check_some c.routes
  check_routes parse_url [] c.routes

-- What the YAML decoder finds first, and whether a second document follows.
pub data Decoded : Type 0 where
  end_of_file : Decoded
  malformed_document : Decoded
  document : Config → (at_end : Bool) → Decoded

unfoldable pub parse : (Text → Option Url) → Decoded → Result ConfigError Config
unfolding apply_defaults validate
parse parse_url end_of_file = err empty_document
parse parse_url malformed_document = err malformed
parse parse_url (document c false) = err several_documents
parse parse_url (document c true) = validate parse_url (apply_defaults c) >> ok (apply_defaults c)
