-- ===== src/Proxy/Tests/Quotas.antt =====
-- The gateway over the memory backend at concrete input: two requests in any ten nanoseconds.
use turnike.Common.{
  length, floor_mod, Bool, pos, ◌≤◌, ◌+ℤ◌, ◌-ℤ◌, true, List, [], ◌∷◌, Text, text_eq, starts_with,
  trim_right, ◌≡◌, refl, arith,
}
use turnike.Config.{Limit, Route, algo_sliding_window, on_error_fail_open}
use turnike.Config.Limits.{limit_for}
use turnike.Limiter.{truncate}
use turnike.Limiter.SlidingWindow
use turnike.Limiter.SlidingWindow.Quota.{count_within}
use turnike.Limiter.Memory
use turnike.Limiter.Memory.{state_key}
use turnike.Limiter.Memory.Quota.{HasLimit}
use turnike.Limiter.Memory.Quota.Fixed.{IsIn}
use turnike.Limiter.Tests.FixedPoint.{fixed_point}
use turnike.Proxy.Identity.{identity_for, render}
use turnike.Proxy.Paths.{clean, join, split, has_dot_segments}
use turnike.Proxy.Table.{Entry, compile, new_table, match}
use turnike.Proxy.Gateway.{quota_key, respond, rate_limit_headers, serve}
use turnike.Proxy.Gateway.Quota.{Timed, all_asked, passed_for, passed_for-quota, passed_for-window}
use turnike.Proxy.Tests.{api, hosts, request, world}

abbrev two_in_any_ten : Limit
two_in_any_ten = record {
  algorithm = algo_sliding_window;
  rate = pos 2;
  burst = pos 0;
  window = pos 10;
}

abbrev sliding_api : Route
sliding_api = record api { limit = two_in_any_ten }

abbrev table : List Entry
table = new_table (sliding_api ∷ [])

abbrev key : Text
key = state_key two_in_any_ten (quota_key hosts (compile sliding_api) request)

abbrev at_23_24_25 : List Timed
at_23_24_25 =
    record { now = pos 23; request = request }
    ∷ record { now = pos 24; request = request }
    ∷ record { now = pos 25; request = request }
    ∷ []

served : Bool
unfolding passed_for serve match new_table clean join split has_dot_segments text_eq starts_with
    trim_right limit_for identity_for render Memory.allow Memory.step Memory.new_bucket
    SlidingWindow.step SlidingWindow.evict SlidingWindow.retry_after ◌+ℤ◌ ◌-ℤ◌ respond
    rate_limit_headers
served = true

two_pass :
    passed_for fixed_point hosts table on_error_fail_open key world at_23_24_25
    ≡ pos 23 ∷ pos 24 ∷ []
unfolding served
two_pass = refl

one_limit : HasLimit fixed_point key two_in_any_ten (all_asked fixed_point hosts table at_23_24_25)
unfolding served
one_limit = (refl, (refl, (refl, tt)))

passed_for-quota_example :
    count_within
      (pos 20)
      (pos 10)
      (passed_for fixed_point hosts table on_error_fail_open key world at_23_24_25)
    ≤ 2
passed_for-quota_example =
    passed_for-quota fixed_point hosts table on_error_fail_open key two_in_any_ten (pos 20) world
      at_23_24_25 (omega arith) refl one_limit (omega arith) refl

abbrev fixed_key : Text
fixed_key = state_key api.limit (quota_key hosts (compile api) request)

abbrev fixed_table : List Entry
fixed_table = new_table (api ∷ [])

one_fixed_limit :
    HasLimit fixed_point fixed_key api.limit (all_asked fixed_point hosts fixed_table at_23_24_25)
unfolding served
one_fixed_limit = (refl, (refl, (refl, tt)))

one_window :
    IsIn fixed_point fixed_key api.limit
      (pos 20)
      (all_asked fixed_point hosts fixed_table at_23_24_25)
unfolding served truncate floor_mod
one_window = (refl, (refl, (refl, tt)))

passed_for-window_example :
    length (passed_for fixed_point hosts fixed_table on_error_fail_open fixed_key world at_23_24_25)
    ≤ 2
passed_for-window_example =
    passed_for-window fixed_point hosts fixed_table on_error_fail_open fixed_key api.limit (pos 20)
      world at_23_24_25 refl one_fixed_limit one_window refl
