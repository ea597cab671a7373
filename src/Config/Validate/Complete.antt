-- ===== src/Config/Validate/Complete.antt =====
-- internal/config/config.go: which documents Parse accepts, in both directions.
use turnike.Common.{
  pos, ltb_ℤ, ◌<ℤ◌, ◌≡◌, ◌≢◌, ◌⊎◌, ◌↔◌, refl, sym, ap, subst, ◌∙◌, true, false, Option, List, [],
  ◌∷◌, map, Text, text_eq_iff, ok, >>-eq-ok, All, arith,
}
use turnike.Config.{
  Route, Redis, Limiter, Duration, Config, backend_memory, backend_redis, on_error_fail_open,
  on_error_fail_closed, on_error_degrade,
}
use turnike.Config.Validate.{
  Url, apply_defaults, normalize, member, check_durations, durations, check_backend, check_on_error,
  check_some, validate, Decoded, document, end_of_file, malformed_document, parse,
}
use turnike.Config.Validate.Routes.{Distinct, AreNew}
use turnike.Config.Validate.Sound.{ok-injective, validate-apply_defaults-IsSound}
use turnike.Config.Validate.Usable.{
  IsUsableRoute, check_routes_complete, check_routes-IsUsableRoute,
}

-- A configuration that the gateway can run with.
pub record IsUsable (parse_url : Text → Option Url) (c : Config) : Type 0 where
  pub timeouts : All (λ e. pos 0 <ℤ e.1) (durations c)
  pub backend :
      (c.limiter.backend ≡ backend_memory)
      ⊎ ((c.limiter.backend ≡ backend_redis) × (c.limiter.redis.addr ≢ []))
  pub on_error :
      (c.limiter.redis.on_error ≡ on_error_fail_open)
      ⊎ ((c.limiter.redis.on_error ≡ on_error_fail_closed)
          ⊎ (c.limiter.redis.on_error ≡ on_error_degrade))
  pub some_route : c.routes ≢ []
  pub routes : All (IsUsableRoute parse_url) c.routes
  pub distinct : Distinct (map (λ r. normalize r.prefix) c.routes)

check_durations_complete :
    (ds : List (Text × Duration)) → All (λ e. pos 0 <ℤ e.1) ds → check_durations ds ≡ ok tt
unfolding check_durations
check_durations_complete [] h = refl
check_durations_complete ((name, d) ∷ ds) (p, h) =
    let nonneg : ltb_ℤ d (pos 0) ≡ false = ground (arith, p) in
    rw nonneg (check_durations_complete ds h)

check_backend_complete :
    (l : Limiter)
    → (l.backend ≡ backend_memory) ⊎ ((l.backend ≡ backend_redis) × (l.redis.addr ≢ []))
    → check_backend l ≡ ok tt
unfolding check_backend
check_backend_complete l h = ground (
  arith,
  text_eq_iff l.backend backend_memory,
  text_eq_iff l.backend backend_redis,
  text_eq_iff l.redis.addr [],
)

check_on_error_complete :
    (r : Redis)
    → (r.on_error ≡ on_error_fail_open)
      ⊎ ((r.on_error ≡ on_error_fail_closed) ⊎ (r.on_error ≡ on_error_degrade))
    → check_on_error r ≡ ok tt
unfolding check_on_error
check_on_error_complete r h = ground (
  arith,
  text_eq_iff r.on_error on_error_fail_open,
  text_eq_iff r.on_error on_error_fail_closed,
  text_eq_iff r.on_error on_error_degrade,
)

check_some_complete : (rs : List Route) → rs ≢ [] → check_some rs ≡ ok tt
unfolding check_some
check_some_complete [] h = absurd (h refl)
check_some_complete (r ∷ rs) h = refl

none-seen : (rs : List Route) → AreNew [] rs
unfolding member
none-seen [] = tt
none-seen (r ∷ rs) = (refl, none-seen rs)

validate_complete :
    (parse_url : Text → Option Url) (c : Config)
    → IsUsable parse_url c
    → validate parse_url c ≡ ok tt
unfolding validate
validate_complete parse_url c u =
    rw
      (
        check_durations_complete (durations c) u.timeouts,
        check_backend_complete c.limiter u.backend,
        check_on_error_complete c.limiter.redis u.on_error,
        check_some_complete c.routes u.some_route,
      )
      (check_routes_complete parse_url [] c.routes u.routes (none-seen c.routes) u.distinct)

routes_of :
    (parse_url : Text → Option Url) (d : Config)
    → validate parse_url d ≡ ok tt
    → All (IsUsableRoute parse_url) d.routes
unfolding validate
routes_of parse_url d h =
    let (_, h1) = >>-eq-ok (check_durations (durations d)) _ h in
    let (_, h2) = >>-eq-ok (check_backend d.limiter) _ h1 in
    let (_, h3) = >>-eq-ok (check_on_error d.limiter.redis) _ h2 in
    let (_, routes) = >>-eq-ok (check_some d.routes) _ h3 in
    check_routes-IsUsableRoute parse_url [] d.routes routes

validate-IsUsable :
    (parse_url : Text → Option Url) (c : Config)
    → validate parse_url (apply_defaults c) ≡ ok tt
    → IsUsable parse_url (apply_defaults c)
validate-IsUsable parse_url c h =
    let sound = validate-apply_defaults-IsSound parse_url c h in
    record {
      timeouts = sound.timeouts;
      backend = sound.backend;
      on_error = sound.on_error;
      some_route = sound.some_route;
      routes = routes_of parse_url (apply_defaults c) h;
      distinct = sound.distinct;
    }

document-injective : {a b : Config} → document a true ≡ document b true → a ≡ b
document-injective h = cc

-- Parse gives a configuration exactly for one well-formed document whose settings, with the defaults
-- filled in, are a usable configuration: it refuses nothing else.
pub parse_iff :
    (parse_url : Text → Option Url) (d : Decoded) (c : Config)
    → (parse parse_url d ≡ ok c)
      ↔ ((k : Config) × (d ≡ document k true) × (c ≡ apply_defaults k) × IsUsable parse_url c)
unfolding parse
parse_iff parse_url end_of_file c = (λ h. absurd (cc), λ h. absurd (cc (h.1)))
parse_iff parse_url malformed_document c = (λ h. absurd (cc), λ h. absurd (cc (h.1)))
parse_iff parse_url (document k false) c = (λ h. absurd (cc), λ h. absurd (cc (h.1)))
parse_iff parse_url (document k true) c = (
  λ h.
      let (checked, same) = >>-eq-ok (validate parse_url (apply_defaults k)) _ h in
      (
        k,
        refl,
        sym (ok-injective same),
        subst (IsUsable parse_url) (ok-injective same) (validate-IsUsable parse_url k checked),
      ),
  λ (x, e, same, usable).
      let same_k : k ≡ x = document-injective e in
      let ours : c ≡ apply_defaults k = same ∙ ap apply_defaults (sym same_k) in
      rw
        (
          validate_complete parse_url (apply_defaults k) (subst (IsUsable parse_url) ours usable),
          ours,
        )
        refl,
)
