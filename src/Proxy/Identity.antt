-- ===== src/Proxy/Identity.antt =====
-- internal/proxy/identity.go. The request header lookup gives the empty text for a missing header;
-- net.SplitHostPort and the hex of a SHA-256 digest's first 8 bytes are parameters.
use turnike.Common.{Option, none, some, [], ◌++◌, Text, text_eq, codes, if◌then◌else◌, not}

pub data Kind : Type 0 where
  key ip : Kind

abbrev pub kind_name : Kind → Text
kind_name key = codes "key"
kind_name ip = codes "ip"

pub record Identity : Type 0 where
  pub kind : Kind
  pub value : Text

-- What the proxy reads of an http.Request. `path` is decoded, `escaped_path` is not.
pub record Request : Type 0 where
  pub path : Text
  pub escaped_path : Text
  pub api_key : Text
  pub remote_addr : Text

-- The functions of Go's library that an identity is made with.
pub record Hosts : Type 0 where
  pub split_host_port : Text → Option Text
  pub fingerprint : Text → Text

abbrev or_whole : Text → Option Text → Text
or_whole addr none = addr
or_whole addr (some host) = host

unfoldable pub identity_for : Hosts → Request → Identity
identity_for hosts r =
    if not (text_eq r.api_key [])
    then record { kind = key; value = r.api_key }
    else record { kind = ip; value = or_whole r.remote_addr (hosts.split_host_port r.remote_addr) }

-- Identity.String: a key shows as its fingerprint only.
render_as : Kind → Hosts → Text → Text
render_as key hosts value = kind_name key ++ codes ":" ++ hosts.fingerprint value
render_as ip hosts value = kind_name ip ++ codes ":" ++ value

unfoldable pub render : Hosts → Identity → Text
unfolding render_as
render hosts id = render_as id.kind hosts id.value
