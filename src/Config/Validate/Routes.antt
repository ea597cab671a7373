-- ===== src/Config/Validate/Routes.antt =====
-- internal/config/config.go: what the checks of Route.validate and the loop over the routes ensure,
-- override by override.
use turnike.Common.{
  ◌≡◌, refl, ◌≢◌, inl, inr, Bool, true, false, Option, some, List, [], ◌∷◌, map, Text, text_eq,
  text_eq_iff, starts_with, codes, Result, ok, err, >>-eq-ok, if◌then◌else◌, lookup, All, arith,
  Option-cases,
}
use turnike.Config.{Limit, Route}
use turnike.Config.Limits.{
  with_defaults, validate_limit, limit_for, IsValidLimit, validate_limit_sound,
}
use turnike.Config.Validate.{
  Url, RouteError, wrap, check_overrides, validate_route, normalize, member, check_routes,
}

pub wrap-eq-ok {κ ι} :
    {E : Type κ} {F : Type ι} (f : E → F) (r : Result E (Unit {0})) → wrap f r ≡ ok tt → r ≡ ok tt
wrap-eq-ok f (ok tt) h = refl
wrap-eq-ok f (err e) h = cc

with_defaults-IsValidLimit : (l : Limit) → IsValidLimit l → IsValidLimit (with_defaults l)
unfolding with_defaults
with_defaults-IsValidLimit l v = ground arith

check_overrides-lookup :
    (r : Route) (m : List (Text × Limit)) (key : Text) (o : Limit)
    → check_overrides r m ≡ ok tt
    → lookup text_eq key m ≡ some o
    → validate_limit (limit_for r key) ≡ ok tt
unfolding check_overrides
check_overrides-lookup r [] key o h e = cc
check_overrides-lookup r ((j, x) ∷ m) key o h e =
    let (now, later) = >>-eq-ok _ (check_overrides r m) h in
    ground (
      arith,
      text_eq_iff j key,
      wrap-eq-ok (RouteError.override_invalid j) (validate_limit (limit_for r j)),
      check_overrides-lookup r m key o later,
    )

-- A route whose every client gets a usable limit.
pub record IsValidRoute (r : Route) : Type 0 where
  pub rooted : starts_with r.prefix (codes "/") ≡ true
  pub limits : (key : Text) → IsValidLimit (limit_for r key)

limit_for-IsValidLimit :
    (r : Route) (key : Text)
    → IsValidLimit r.limit
    → check_overrides r r.key_overrides ≡ ok tt
    → IsValidLimit (limit_for r key)
limit_for-IsValidLimit r key v h = elim (Option-cases (lookup text_eq key r.key_overrides)) [
  | inl e ↦ unfold limit_for in rw e (with_defaults-IsValidLimit r.limit v)
  | inr (o, e) ↦
      validate_limit_sound (limit_for r key) (check_overrides-lookup r r.key_overrides key o h e)
]

pub if-eq-ok {κ} :
    {E : Type κ} (b : Bool) (e : E)
    → ◌≡◌ {A = Result E (Unit {0})} (if b then ok tt else err e) (ok tt)
    → b ≡ true
if-eq-ok true e h = refl
if-eq-ok false e h = cc

validate_route-sound :
    (parse_url : Text → Option Url) (r : Route)
    → validate_route parse_url r ≡ ok tt
    → IsValidRoute r
unfolding validate_route
validate_route-sound parse_url r h =
    let (rooted, h1) = >>-eq-ok _ _ h in
    let (_, h2) = >>-eq-ok _ _ h1 in
    let (c, d) = >>-eq-ok _ (check_overrides r r.key_overrides) h2 in
    let valid = validate_limit_sound r.limit (wrap-eq-ok _ _ c) in
    record { rooted = if-eq-ok _ _ rooted; limits = λ key. limit_for-IsValidLimit r key valid d }

-- No two entries are equal.
abbrev pub Distinct : List Text → Type 0
Distinct [] = Unit
Distinct (t ∷ ts) = All (λ s. t ≢ s) ts × Distinct ts

-- Every entry's normalized prefix is new to `seen`.
abbrev pub AreNew : List Text → List Route → Type 0
AreNew seen rs = All (λ r. member (normalize r.prefix) seen ≡ false) rs

member-false-cons :
    (t s : Text) (ss : List Text) → member t (s ∷ ss) ≡ false → (s ≢ t) × (member t ss ≡ false)
unfolding member
member-false-cons t s ss h = ground (arith, text_eq_iff s t)

AreNew-cons :
    (t : Text) (seen : List Text) (rs : List Route)
    → AreNew (t ∷ seen) rs
    → AreNew seen rs × All (λ s. t ≢ s) (map (λ r. normalize r.prefix) rs)
AreNew-cons t seen [] h = (tt, tt)
AreNew-cons t seen (r ∷ rs) (h, hs) =
    let (ne, old) = member-false-cons (normalize r.prefix) t seen h in
    let (olds, nes) = AreNew-cons t seen rs hs in ((old, olds), (ne, nes))

abbrev pub reject {κ} : {E : Type κ} → Bool → E → Result E (Unit {0})
reject b e = if b then err e else ok tt

pub unless-eq-ok {κ} : {E : Type κ} (b : Bool) (e : E) → reject b e ≡ ok tt → b ≡ false
unless-eq-ok true e h = cc
unless-eq-ok false e h = refl

pub check_routes_sound :
    (parse_url : Text → Option Url) (seen : List Text) (rs : List Route)
    → check_routes parse_url seen rs ≡ ok tt
    → All IsValidRoute rs × AreNew seen rs × Distinct (map (λ r. normalize r.prefix) rs)
unfolding check_routes
check_routes_sound parse_url seen [] h = (tt, tt, tt)
check_routes_sound parse_url seen (r ∷ rs) h =
    let (checked, h1) = >>-eq-ok _ _ h in
    let (new, h2) = >>-eq-ok _ _ h1 in
    let (valid, fresh, distinct) = check_routes_sound parse_url (normalize r.prefix ∷ seen) rs h2 in
    let (olds, apart) = AreNew-cons (normalize r.prefix) seen rs fresh in
    (
      (validate_route-sound parse_url r (wrap-eq-ok _ _ checked), valid),
      (unless-eq-ok _ _ new, olds),
      (apart, distinct),
    )
