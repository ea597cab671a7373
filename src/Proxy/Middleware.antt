-- ===== src/Proxy/Middleware.antt =====
-- internal/proxy/middleware.go: Middleware around the gateway. The access log is left out; the
-- fresh request id, drawn and encoded by crypto/rand and encoding/hex, is an argument.
pub mod Mirror
use turnike.Common.{
  ℕ, suc, ◌+◌, ◌/◌, ◌-◌, ◌*◌, true, leb, ltb, ◌==◌, not, ◌&&◌, ◌||◌, Bool, List, [], ◌∷◌, length,
  Text, text_eq, Result, if◌then◌else◌,
}
use turnike.Config.{Limit}
use turnike.Limiter.{Decision}
use turnike.Proxy.Identity.{Hosts, Request}
use turnike.Proxy.Table.{Entry}
use turnike.Proxy.Gateway.{World, Reply, serve}

abbrev between : ℕ → ℕ → ℕ → Bool
between lo hi c = leb lo c && leb c hi

-- The class [A-Za-z0-9._-].
unfoldable pub is_id_byte : ℕ → Bool
is_id_byte c =
    between b'A' b'Z' c
    || (between b'a' b'z' c || (between b'0' b'9' c || (c == b'.' || (c == b'_' || c == b'-'))))

abbrev pub all_id_bytes : Text → Bool
all_id_bytes [] = true
all_id_bytes (c ∷ cs) = is_id_byte c && all_id_bytes cs

-- requestIDPattern.
abbrev pub is_request_id : Text → Bool
is_request_id t = leb 1 (length t) && (leb (length t) 128 && all_id_bytes t)

-- The inbound id if it matches the pattern, otherwise a fresh one: newRequestID, the hex of 16 random
-- bytes.
unfoldable pub request_id : (fresh : Text) → (inbound : Text) → Text
request_id fresh inbound = if is_request_id inbound then inbound else fresh

-- The gateway's world with the number of observations in request_duration_seconds.
pub record Observed {ℓ} (S : Type ℓ) : Type ℓ where
  pub world : World S
  pub observations : ℕ

module _ {ℓ κ} {S : Type ℓ} {E : Type κ} (limiter : Text → Limit → S → S × Result E Decision)
    (hosts : Hosts) where
  -- One observation for a request whose holder the gateway has filled.
  unfoldable pub observe : Text → ℕ → World S × Reply → Text × Observed S × Reply
  observe id n (w, reply) = (
    id,
    record { world = w; observations = if not (text_eq w.route_prefix []) then suc n else n },
    reply,
  )

  -- A request gets an id, set on it and on the response, and an empty holder, and goes to the gateway.
  unfoldable pub middleware :
      List Entry
      → Text
      → (fresh : Text) → (inbound : Text) → Request
      → Observed S
      → Text × Observed S × Reply
  unfolding observe request_id
  middleware table on_error fresh inbound r o =
      observe (request_id fresh inbound) o.observations
        (serve limiter hosts table on_error r (record o.world { route_prefix = [] }))
