-- ===== src/Config.antt =====
-- internal/config/config.go: the configuration's types and constants. The children hold the
-- effective limits, the defaults with the validation, and what validation ensures.
pub mod Limits
pub mod Validate
pub mod Load
pub mod Tests
use turnike.Common.{ℤ, Bool, List, Text, codes}

abbrev pub algo_fixed_window : Text
algo_fixed_window = codes "fixed_window"

abbrev pub algo_sliding_window : Text
algo_sliding_window = codes "sliding_window"

abbrev pub algo_token_bucket : Text
algo_token_bucket = codes "token_bucket"

abbrev pub backend_memory : Text
backend_memory = codes "memory"

abbrev pub backend_redis : Text
backend_redis = codes "redis"

abbrev pub on_error_fail_open : Text
on_error_fail_open = codes "fail_open"

abbrev pub on_error_fail_closed : Text
on_error_fail_closed = codes "fail_closed"

abbrev pub on_error_degrade : Text
on_error_degrade = codes "degrade"

-- A time.Duration in nanoseconds.
abbrev pub Duration : Type 0
Duration = ℤ

pub record Limit : Type 0 where
  pub algorithm : Text
  pub rate : ℤ
  pub burst : ℤ
  pub window : Duration

pub record Route : Type 0 where
  pub prefix : Text
  pub upstream : Text
  pub limit : Limit
  pub key_overrides : List (Text × Limit)

pub record Server : Type 0 where
  pub listen : Text
  pub metrics_disabled : Bool
  pub demo_page : Bool
  pub read_header_timeout : Duration
  pub read_timeout : Duration
  pub write_timeout : Duration
  pub idle_timeout : Duration
  pub shutdown_timeout : Duration

pub record Upstream : Type 0 where
  pub dial_timeout : Duration
  pub response_header_timeout : Duration

pub record Redis : Type 0 where
  pub addr : Text
  pub on_error : Text

pub record Limiter : Type 0 where
  pub backend : Text
  pub redis : Redis

pub record Config : Type 0 where
  pub server : Server
  pub upstream : Upstream
  pub limiter : Limiter
  pub routes : List Route
