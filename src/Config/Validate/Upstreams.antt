-- ===== src/Config/Validate/Upstreams.antt =====
-- internal/config/config.go: the upstreams of a configuration that parses.
use turnike.Common.{
  true, Option, none, some, List, [], ◌∷◌, All, Text, Result, ok, >>-eq-ok, ◌≡◌, subst, refl, inl,
  inr, Bool-cases, false,
}
use turnike.Config.{Config, Route}
use turnike.Config.Validate.{
  ConfigError, Url, check_durations, durations, check_backend, check_on_error, check_some,
  is_absolute, normalize, check_upstream, validate_route, check_routes, apply_defaults, validate,
  Decoded, document, end_of_file, malformed_document, parse,
}
use turnike.Config.Validate.Routes.{wrap-eq-ok}

-- The upstream is an absolute http or https URL.
abbrev pub HasUpstream : (Text → Option Url) → Route → Type 0
HasUpstream parse_url r = (u : Url) × (parse_url r.upstream ≡ some u) × (is_absolute u ≡ true)

check_upstream_sound :
    (t : Text) (o : Option Url)
    → check_upstream t o ≡ ok tt
    → (u : Url) × (o ≡ some u) × (is_absolute u ≡ true)
unfolding check_upstream
check_upstream_sound t none h = absurd (cc)
check_upstream_sound t (some u) h = elim (Bool-cases (is_absolute u)) [
  | inl yes_absolute ↦ (u, refl, yes_absolute)
  | inr no_absolute ↦ absurd (cc (rw no_absolute at h))
]

pub validate_route_upstream :
    (parse_url : Text → Option Url) (r : Route)
    → validate_route parse_url r ≡ ok tt
    → HasUpstream parse_url r
unfolding validate_route
validate_route_upstream parse_url r h =
    let (_, h1) = >>-eq-ok _ _ h in
    let (checked, _) = >>-eq-ok (check_upstream r.upstream (parse_url r.upstream)) _ h1 in
    check_upstream_sound r.upstream (parse_url r.upstream) checked

check_routes_upstreams :
    (parse_url : Text → Option Url) (seen : List Text) (rs : List Route)
    → check_routes parse_url seen rs ≡ ok tt
    → All (HasUpstream parse_url) rs
unfolding check_routes
check_routes_upstreams parse_url seen [] h = tt
check_routes_upstreams parse_url seen (r ∷ rs) h =
    let (checked, h1) = >>-eq-ok _ _ h in
    let (_, rest) = >>-eq-ok _ (check_routes parse_url (normalize r.prefix ∷ seen) rs) h1 in
    (
      validate_route_upstream parse_url r (wrap-eq-ok _ _ checked),
      check_routes_upstreams parse_url (normalize r.prefix ∷ seen) rs rest,
    )

validate_upstreams :
    (parse_url : Text → Option Url) (c : Config)
    → validate parse_url c ≡ ok tt
    → All (HasUpstream parse_url) c.routes
unfolding validate
validate_upstreams parse_url c h =
    let (_, h1) = >>-eq-ok (check_durations (durations c)) _ h in
    let (_, h2) = >>-eq-ok (check_backend c.limiter) _ h1 in
    let (_, h3) = >>-eq-ok (check_on_error c.limiter.redis) _ h2 in
    let (_, routes) = >>-eq-ok (check_some c.routes) _ h3 in
    check_routes_upstreams parse_url [] c.routes routes

parsed_config : {a b : Config} → ◌≡◌ {A = Result ConfigError Config} (ok a) (ok b) → a ≡ b
parsed_config h = cc

-- Every route of a configuration that parses has an upstream that url.Parse reads.
pub parse-HasUpstream :
    (parse_url : Text → Option Url) (d : Decoded) (c : Config)
    → parse parse_url d ≡ ok c
    → All (HasUpstream parse_url) c.routes
unfolding parse
parse-HasUpstream parse_url end_of_file c h = absurd (cc)
parse-HasUpstream parse_url malformed_document c h = absurd (cc)
parse-HasUpstream parse_url (document k false) c h = absurd (cc)
parse-HasUpstream parse_url (document k true) c h =
    let (checked, same) = >>-eq-ok (validate parse_url (apply_defaults k)) _ h in
    subst (λ c. All (HasUpstream parse_url) c.routes) (parsed_config same)
      (validate_upstreams parse_url (apply_defaults k) checked)
