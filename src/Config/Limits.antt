-- ===== src/Config/Limits.antt =====
-- internal/config/config.go: Limit.withDefaults, Limit.validate and Route.LimitFor.
use turnike.Common.{
  ℤ, pos, leb_ℤ, eq_ℤ, ◌<ℤ◌, ◌↔◌, ◌≡◌, ◌⊎◌, not, ◌&&◌, ◌||◌, Option, none, some, [], Text, text_eq,
  text_eq_iff, lookup, Result, ok, err, if◌then◌else◌, arith,
}
use turnike.Config.{
  Limit, Route, Duration, algo_fixed_window, algo_sliding_window, algo_token_bucket,
}

-- Why a limit is refused; the constructors follow the order of the checks.
pub data LimitError : Type 0 where
  rate_not_positive : ℤ → LimitError
  burst_not_positive : ℤ → LimitError
  refill_not_positive : LimitError
  window_not_positive : Text → LimitError
  burst_not_allowed : ℤ → Text → LimitError
  unknown_algorithm : Text → LimitError

abbrev pub second : Duration
second = pos 1000000000

unfoldable pub with_defaults : Limit → Limit
with_defaults l =
    if text_eq l.algorithm algo_token_bucket && eq_ℤ l.window (pos 0)
    then record l { window = second }
    else l

validate_bucket : Limit → Result LimitError (Unit {0})
validate_bucket l =
    if leb_ℤ l.burst (pos 0)
    then err (burst_not_positive l.burst)
    else (if leb_ℤ l.window (pos 0) then err refill_not_positive else ok tt)

validate_window : Limit → Result LimitError (Unit {0})
validate_window l =
    if leb_ℤ l.window (pos 0)
    then err (window_not_positive l.algorithm)
    else (if not (eq_ℤ l.burst (pos 0)) then err (burst_not_allowed l.burst l.algorithm) else ok tt)

unfoldable pub validate_limit : Limit → Result LimitError (Unit {0})
unfolding validate_bucket validate_window
validate_limit l =
    if leb_ℤ l.rate (pos 0)
    then err (rate_not_positive l.rate)
    else (if text_eq l.algorithm algo_token_bucket
        then validate_bucket l
        else (if text_eq l.algorithm algo_fixed_window || text_eq l.algorithm algo_sliding_window
            then validate_window l
            else err (unknown_algorithm l.algorithm)))

-- One override field over the base's: a zero value inherits.
or_base : ℤ → ℤ → ℤ
or_base o base = if not (eq_ℤ o (pos 0)) then o else base

merge : Limit → Limit → Limit
unfolding or_base
merge base o = record base {
  rate = or_base o.rate base.rate;
  burst = or_base o.burst base.burst;
  window = or_base o.window base.window;
}

-- The override `o` over the route's limit `base`.
override : Limit → Limit → Limit
unfolding merge with_defaults
override base o =
    if not (text_eq o.algorithm []) && not (text_eq o.algorithm base.algorithm)
    then with_defaults o
    else with_defaults (merge base o)

effective : Limit → Option Limit → Limit
unfolding override with_defaults
effective base none = with_defaults base
effective base (some o) = override base o

unfoldable pub limit_for : Route → Text → Limit
unfolding effective
limit_for r key = effective r.limit (lookup text_eq key r.key_overrides)

-- What a usable limit is, independently of the checks' order.
pub record IsValidLimit (l : Limit) : Type 0 where
  pub rate : pos 0 <ℤ l.rate
  pub window : pos 0 <ℤ l.window
  pub algorithm :
      ((l.algorithm ≡ algo_token_bucket) × (pos 0 <ℤ l.burst))
      ⊎ (((l.algorithm ≡ algo_fixed_window) ⊎ (l.algorithm ≡ algo_sliding_window))
          × (l.burst ≡ pos 0))

pub validate_limit_sound : (l : Limit) → validate_limit l ≡ ok tt → IsValidLimit l
unfolding validate_limit
validate_limit_sound l h = ground (
  arith,
  text_eq_iff l.algorithm algo_token_bucket,
  text_eq_iff l.algorithm algo_fixed_window,
  text_eq_iff l.algorithm algo_sliding_window,
)

validate_limit_complete : (l : Limit) → IsValidLimit l → validate_limit l ≡ ok tt
unfolding validate_limit
validate_limit_complete l v = ground (
  arith,
  text_eq_iff l.algorithm algo_token_bucket,
  text_eq_iff l.algorithm algo_fixed_window,
  text_eq_iff l.algorithm algo_sliding_window,
)

-- A limit passes exactly if it is usable: the checks of its validation and what they are for agree.
pub validate_limit_iff : (l : Limit) → (validate_limit l ≡ ok tt) ↔ IsValidLimit l
validate_limit_iff l = (validate_limit_sound l, validate_limit_complete l)
