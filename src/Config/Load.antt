-- ===== src/Config/Load.antt =====
-- internal/config/config.go: Duration.UnmarshalYAML and Load. The YAML node's decoding into a string,
-- time.ParseDuration, os.ReadFile and the YAML decoder are parameters.
use turnike.Common.{ℕ, Option, none, some, List, Text, Result, ok, err, ◌≡◌, refl}
use turnike.Config.{Duration, Config}
use turnike.Config.Validate.{Url, ConfigError, Decoded, parse}

pub data DurationError : Type 0 where
  not_a_string : DurationError
  invalid_duration : (raw : Text) → DurationError

parsed : Text → Option Duration → Result DurationError Duration
parsed raw none = err (invalid_duration raw)
parsed raw (some d) = ok d

-- UnmarshalYAML of a node that decodes into a string, or into none.
unfoldable pub unmarshal_duration :
    (Text → Option Duration) → Option Text → Result DurationError Duration
unfolding parsed
unmarshal_duration parse_duration none = err not_a_string
unmarshal_duration parse_duration (some raw) = parsed raw (parse_duration raw)

pub data LoadError : Type 0 where
  unreadable : (path : Text) → LoadError
  in_file : (path : Text) → ConfigError → LoadError

named : Text → Result ConfigError Config → Result LoadError Config
named path (ok c) = ok c
named path (err e) = err (in_file path e)

-- A file is a list of bytes.
abbrev pub Bytes : Type 0
Bytes = List ℕ

load_file : (Text → Option Url) → (Bytes → Decoded) → Text → Option Bytes → Result LoadError Config
unfolding named
load_file parse_url decode path none = err (unreadable path)
load_file parse_url decode path (some content) = named path (parse parse_url (decode content))

unfoldable pub load :
    (Text → Option Url) → (Bytes → Decoded) → (Text → Option Bytes) → Text → Result LoadError Config
unfolding load_file
load parse_url decode read_file path = load_file parse_url decode path (read_file path)

load_file-eq-ok :
    (parse_url : Text → Option Url) (decode : Bytes → Decoded) (path : Text) (o : Option Bytes)
    (c : Config)
    → load_file parse_url decode path o ≡ ok c
    → (content : Bytes) × (o ≡ some content) × (parse parse_url (decode content) ≡ ok c)
unfolding load_file
load_file-eq-ok parse_url decode path none c h = absurd (cc)
load_file-eq-ok parse_url decode path (some content) c h =
    (content, refl, named-eq-ok (parse parse_url (decode content)) h)
  where
    named-eq-ok : (r : Result ConfigError Config) → named path r ≡ ok c → r ≡ ok c
    named-eq-ok (ok d) k = cc
    named-eq-ok (err e) k = absurd (cc)

-- A file that loads is readable, and its content parses to the configuration.
pub load-eq-ok :
    (parse_url : Text → Option Url) (decode : Bytes → Decoded) (read_file : Text → Option Bytes)
    (path : Text) (c : Config)
    → load parse_url decode read_file path ≡ ok c
    → (content : Bytes) × (read_file path ≡ some content)
      × (parse parse_url (decode content) ≡ ok c)
unfolding load
load-eq-ok parse_url decode read_file path c h =
    load_file-eq-ok parse_url decode path (read_file path) c h
