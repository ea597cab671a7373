-- ===== src/Config/Validate/Sound.antt =====
-- internal/config/config.go: Config.validate after applyDefaults, and what a usable configuration is.
use turnike.Common.{
  pos, ltb_ℤ, ◌<ℤ◌, ◌≤ℤ◌, ◌<◌, ℕ, ◌≡◌, subst, ◌≢◌, ◌⊎◌, true, false, Option, List, [], ◌∷◌, map,
  Text, text_eq_iff, Result, ok, >>-eq-ok, All, arith,
}
use turnike.Config.{
  Route, Redis, Limiter, Duration, Config, backend_memory, backend_redis, on_error_fail_open,
  on_error_fail_closed, on_error_degrade,
}
use turnike.Config.Validate.{
  Url, ConfigError, default_duration, apply_defaults, normalize, check_durations, durations,
  check_backend, check_on_error, check_some, validate, Decoded, document, end_of_file,
  malformed_document, parse,
}
use turnike.Config.Validate.Routes.{IsValidRoute, Distinct, unless-eq-ok, check_routes_sound}

pub ok-injective : {a b : Config} → ◌≡◌ {A = Result ConfigError Config} (ok a) (ok b) → a ≡ b
ok-injective h = cc

check_durations-sound :
    (ds : List (Text × Duration)) → check_durations ds ≡ ok tt → All (λ e. pos 0 ≤ℤ e.1) ds
unfolding check_durations
check_durations-sound [] h = tt
check_durations-sound ((name, d) ∷ ds) h =
    let (now, later) = >>-eq-ok _ _ h in
    let nonneg = unless-eq-ok (ltb_ℤ d (pos 0)) _ now in
    (ground (arith, nonneg), check_durations-sound ds later)

default_duration-pos :
    (n : ℕ) (d : Duration)
    → 0 < n
    → pos 0 ≤ℤ default_duration (pos n) d
    → pos 0 <ℤ default_duration (pos n) d
unfolding default_duration
default_duration-pos n d k h = ground arith

-- What a configuration in use is guaranteed to hold.
pub record IsSound (c : Config) : Type 0 where
  pub timeouts : All (λ e. pos 0 <ℤ e.1) (durations c)
  pub backend :
      (c.limiter.backend ≡ backend_memory)
      ⊎ ((c.limiter.backend ≡ backend_redis) × (c.limiter.redis.addr ≢ []))
  pub on_error :
      (c.limiter.redis.on_error ≡ on_error_fail_open)
      ⊎ ((c.limiter.redis.on_error ≡ on_error_fail_closed)
          ⊎ (c.limiter.redis.on_error ≡ on_error_degrade))
  pub some_route : c.routes ≢ []
  pub routes : All IsValidRoute c.routes
  pub distinct : Distinct (map (λ r. normalize r.prefix) c.routes)

check_backend_sound :
    (l : Limiter)
    → check_backend l ≡ ok tt
    → (l.backend ≡ backend_memory) ⊎ ((l.backend ≡ backend_redis) × (l.redis.addr ≢ []))
unfolding check_backend
check_backend_sound l h = ground (
  arith,
  text_eq_iff l.backend backend_memory,
  text_eq_iff l.backend backend_redis,
  text_eq_iff l.redis.addr [],
)

check_on_error_sound :
    (r : Redis)
    → check_on_error r ≡ ok tt
    → (r.on_error ≡ on_error_fail_open)
      ⊎ ((r.on_error ≡ on_error_fail_closed) ⊎ (r.on_error ≡ on_error_degrade))
unfolding check_on_error
check_on_error_sound r h = ground (
  arith,
  text_eq_iff r.on_error on_error_fail_open,
  text_eq_iff r.on_error on_error_fail_closed,
  text_eq_iff r.on_error on_error_degrade,
)

check_some_sound : (rs : List Route) → check_some rs ≡ ok tt → rs ≢ []
unfolding check_some
check_some_sound [] h = cc
check_some_sound (r ∷ rs) h = λ e. cc

timeouts-pos :
    (c : Config)
    → All (λ e. pos 0 ≤ℤ e.1) (durations (apply_defaults c))
    → All (λ e. pos 0 <ℤ e.1) (durations (apply_defaults c))
unfolding apply_defaults
timeouts-pos c (h0, (h1, (h2, (h3, (h4, (h5, (h6, _))))))) = (
  default_duration-pos 5000000000 c.server.read_header_timeout (omega arith) h0,
  (
    default_duration-pos 30000000000 c.server.read_timeout (omega arith) h1,
    (
      default_duration-pos 60000000000 c.server.write_timeout (omega arith) h2,
      (
        default_duration-pos 120000000000 c.server.idle_timeout (omega arith) h3,
        (
          default_duration-pos 10000000000 c.server.shutdown_timeout (omega arith) h4,
          (
            default_duration-pos 5000000000 c.upstream.dial_timeout (omega arith) h5,
            (
              default_duration-pos 10000000000 c.upstream.response_header_timeout (omega arith) h6,
              tt,
            ),
          ),
        ),
      ),
    ),
  ),
)

pub validate-apply_defaults-IsSound :
    (parse_url : Text → Option Url) (c : Config)
    → validate parse_url (apply_defaults c) ≡ ok tt
    → IsSound (apply_defaults c)
unfolding validate
validate-apply_defaults-IsSound parse_url c h =
    let d = apply_defaults c in
    let (a, h1) = >>-eq-ok _ _ h in
    let (b, h2) = >>-eq-ok _ _ h1 in
    let (p, h3) = >>-eq-ok _ _ h2 in
    let (s, r) = >>-eq-ok _ _ h3 in
    let (valid, _, distinct) = check_routes_sound parse_url [] d.routes r in
    record {
      timeouts = timeouts-pos c (check_durations-sound (durations d) a);
      backend = check_backend_sound d.limiter b;
      on_error = check_on_error_sound d.limiter.redis p;
      some_route = check_some_sound d.routes s;
      routes = valid;
      distinct = distinct;
    }

-- Whatever the document, a configuration that parses has only positive timeouts, a known backend
-- (redis with an address) and a known failure policy, at least one route, and routes with distinct
-- normalized prefixes, each rooted and with a valid limit for every client key.
pub parse-IsSound :
    (parse_url : Text → Option Url) (d : Decoded) (c : Config)
    → parse parse_url d ≡ ok c
    → IsSound c
unfolding parse
parse-IsSound parse_url end_of_file c h = cc
parse-IsSound parse_url malformed_document c h = cc
parse-IsSound parse_url (document k false) c h = cc
parse-IsSound parse_url (document k true) c h =
    let (checked, same) = >>-eq-ok (validate parse_url (apply_defaults k)) _ h in
    subst IsSound (ok-injective same) (validate-apply_defaults-IsSound parse_url k checked)
