-- ===== src/Config/Tests.antt =====
-- Tests of the configuration at concrete input, and its theorems' examples.
use turnike.Common.{
  pos, ◌≡◌, ◌↔◌, refl, true, false, Option, some, [], ◌∷◌, Text, codes, ok, text_eq, starts_with,
  trim_right,
}
use turnike.Config.{Limit, Route, Config, algo_fixed_window, algo_token_bucket}
use turnike.Config.Limits.{limit_for, validate_limit}
use turnike.Config.Validate.{Url, document, parse, apply_defaults}
use turnike.Config.Validate.Complete.{IsUsable, parse_iff}
use turnike.Config.Validate.Sound.{IsSound, parse-IsSound}

abbrev base : Limit
base = record {
  algorithm = algo_fixed_window;
  rate = pos 3;
  burst = pos 0;
  window = pos 10000000000;
}

abbrev bucket_override : Limit
bucket_override = record {
  algorithm = algo_token_bucket;
  rate = pos 5;
  burst = pos 20;
  window = pos 0;
}

abbrev faster : Limit
faster = record { algorithm = []; rate = pos 50; burst = pos 0; window = pos 0 }

abbrev auth : Route
auth = record {
  prefix = codes "/auth/";
  upstream = codes "http://localhost:9000";
  limit = base;
  key_overrides = (codes "vip", bucket_override) ∷ (codes "pro", faster) ∷ [];
}

abbrev minimal : Config
minimal = record {
  server = record {
    listen = [];
    metrics_disabled = false;
    demo_page = false;
    read_header_timeout = pos 0;
    read_timeout = pos 0;
    write_timeout = pos 0;
    idle_timeout = pos 0;
    shutdown_timeout = pos 0;
  };
  upstream = record { dial_timeout = pos 0; response_header_timeout = pos 0 };
  limiter = record { backend = []; redis = record { addr = []; on_error = [] } };
  routes = auth ∷ [];
}

abbrev any_url : Text → Option Url
any_url t = some (record { scheme = codes "http"; host = codes "localhost:9000" })

-- A client with no override, one whose override switches algorithm, one that inherits.
limit_for_tests :
    (limit_for auth (codes "nobody") ≡ base)
    × (limit_for auth (codes "vip") ≡ record bucket_override { window = pos 1000000000 })
    × (limit_for auth (codes "pro") ≡ record base { rate = pos 50 })
unfolding limit_for text_eq
limit_for_tests = (refl, refl, refl)

parse-minimal : parse any_url (document minimal true) ≡ ok (apply_defaults minimal)
unfolding parse text_eq starts_with trim_right limit_for validate_limit
parse-minimal = refl

parse-IsSound_example : IsSound (apply_defaults minimal)
parse-IsSound_example = parse-IsSound any_url (document minimal true) _ parse-minimal

parse_iff_example : (parse any_url (document minimal true) ≡ ok (apply_defaults minimal)) ↔ (
    (k : Config) × (document minimal true ≡ document k true)
    × (apply_defaults minimal ≡ apply_defaults k)
    × IsUsable any_url (apply_defaults minimal))
parse_iff_example = parse_iff any_url (document minimal true) (apply_defaults minimal)
