-- ===== src/Config/Validate/Usable.antt =====
-- internal/config/config.go: which routes Route.validate and the loop over them accept.
use turnike.Common.{
  ◌≡◌, ◌≢◌, ◌↔◌, refl, sym, ◌∙◌, inl, inr, true, Option, List, [], ◌∷◌, map, Text, text_eq,
  text_eq_iff, starts_with, codes, ok, >>-eq-ok, All, arith, Bool-cases,
}
use turnike.Config.{Limit, Route}
use turnike.Config.Limits.{limit_for, IsValidLimit, validate_limit_iff}
use turnike.Config.Validate.{
  Url, check_upstream, check_overrides, validate_route, normalize, member, check_routes,
}
use turnike.Config.Validate.Routes.{Distinct, AreNew, wrap-eq-ok, if-eq-ok}
use turnike.Config.Validate.Upstreams.{HasUpstream, validate_route_upstream}

-- A route that the gateway can serve.
pub record IsUsableRoute (parse_url : Text → Option Url) (r : Route) : Type 0 where
  pub rooted : starts_with r.prefix (codes "/") ≡ true
  pub upstream : HasUpstream parse_url r
  pub limit : IsValidLimit r.limit
  pub overrides : All (λ e. (e.0 ≢ []) × IsValidLimit (limit_for r e.0)) r.key_overrides

check_overrides_iff :
    (r : Route) (m : List (Text × Limit))
    → (check_overrides r m ≡ ok tt) ↔ All (λ e. (e.0 ≢ []) × IsValidLimit (limit_for r e.0)) m
unfolding check_overrides
check_overrides_iff r [] = (λ h. tt, λ h. refl)
check_overrides_iff r ((key, o) ∷ m) = elim (Bool-cases (text_eq key [])) [
  | inl empty ↦
      (λ h. absurd (cc (rw empty at h)), λ h. absurd (h.0.0 ((text_eq_iff key []).0 empty)))
  | inr named ↦ (
    λ h.
        let (now, later) = >>-eq-ok _ (check_overrides r m) (rw named at h) in
        (
          (
            λ e. cc (sym named ∙ (text_eq_iff key []).1 e),
            (validate_limit_iff (limit_for r key)).0 (wrap-eq-ok _ _ now),
          ),
          (check_overrides_iff r m).0 later,
        ),
    λ h.
        rw (named, (validate_limit_iff (limit_for r key)).1 h.0.1)
          ((check_overrides_iff r m).1 h.1),
  )
]

validate_route-IsUsableRoute :
    (parse_url : Text → Option Url) (r : Route)
    → validate_route parse_url r ≡ ok tt
    → IsUsableRoute parse_url r
unfolding validate_route
validate_route-IsUsableRoute parse_url r h =
    let (rooted, h1) = >>-eq-ok _ _ h in
    let (_, h2) = >>-eq-ok _ _ h1 in
    let (c, d) = >>-eq-ok _ (check_overrides r r.key_overrides) h2 in
    record {
      rooted = if-eq-ok _ _ rooted;
      upstream = validate_route_upstream parse_url r h;
      limit = (validate_limit_iff r.limit).0 (wrap-eq-ok _ _ c);
      overrides = (check_overrides_iff r r.key_overrides).0 d;
    }

check_upstream_complete :
    (parse_url : Text → Option Url) (r : Route)
    → HasUpstream parse_url r
    → check_upstream r.upstream (parse_url r.upstream) ≡ ok tt
unfolding check_upstream
check_upstream_complete parse_url r (u, read, absolute) = rw (read, absolute) refl

validate_route_complete :
    (parse_url : Text → Option Url) (r : Route)
    → IsUsableRoute parse_url r
    → validate_route parse_url r ≡ ok tt
unfolding validate_route
validate_route_complete parse_url r u =
    rw
      (
        u.rooted,
        check_upstream_complete parse_url r u.upstream,
        (validate_limit_iff r.limit).1 u.limit,
      )
      ((check_overrides_iff r r.key_overrides).1 u.overrides)

AreNew-cons :
    (t : Text) (seen : List Text) (rs : List Route)
    → AreNew seen rs
    → All (λ s. t ≢ s) (map (λ r. normalize r.prefix) rs)
    → AreNew (t ∷ seen) rs
unfolding member
AreNew-cons t seen [] h d = tt
AreNew-cons t seen (r ∷ rs) (h, hs) (d, ds) =
    (ground (arith, h, d, text_eq_iff t (normalize r.prefix)), AreNew-cons t seen rs hs ds)

pub check_routes_complete :
    (parse_url : Text → Option Url) (seen : List Text) (rs : List Route)
    → All (IsUsableRoute parse_url) rs
    → AreNew seen rs
    → Distinct (map (λ r. normalize r.prefix) rs)
    → check_routes parse_url seen rs ≡ ok tt
unfolding check_routes
check_routes_complete parse_url seen [] us ns ds = refl
check_routes_complete parse_url seen (r ∷ rs) (u, us) (n, ns) (d, ds) =
    rw (validate_route_complete parse_url r u, n)
      (check_routes_complete parse_url (normalize r.prefix ∷ seen) rs us
        (AreNew-cons (normalize r.prefix) seen rs ns d) ds)

pub check_routes-IsUsableRoute :
    (parse_url : Text → Option Url) (seen : List Text) (rs : List Route)
    → check_routes parse_url seen rs ≡ ok tt
    → All (IsUsableRoute parse_url) rs
unfolding check_routes
check_routes-IsUsableRoute parse_url seen [] h = tt
check_routes-IsUsableRoute parse_url seen (r ∷ rs) h =
    let (checked, h1) = >>-eq-ok _ _ h in
    let (_, rest) = >>-eq-ok _ (check_routes parse_url (normalize r.prefix ∷ seen) rs) h1 in
    (
      validate_route-IsUsableRoute parse_url r (wrap-eq-ok _ _ checked),
      check_routes-IsUsableRoute parse_url (normalize r.prefix ∷ seen) rs rest,
    )
