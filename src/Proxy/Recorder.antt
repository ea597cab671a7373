-- ===== src/Proxy/Recorder.antt =====
-- internal/proxy/middleware.go and gateway.go: statusRecorder and the gateway's errorHandler. The
-- server's ResponseWriter is a parameter; header fields and logging are left out.
pub mod Transparent
pub mod Tests
use turnike.Common.{ℕ, ◌+◌, Bool, List, [], ◌∷◌, ◌++◌, Text, codes, if◌then◌else◌}

-- http.ResponseWriter: Write gives how many bytes it took, and whether it failed.
pub record ResponseWriter (W : Type 0) : Type 0 where
  pub write_header : ℕ → W → W
  pub write : Text → W → W × (ℕ × Bool)

pub record StatusRecorder (W : Type 0) : Type 0 where
  pub writer : W
  pub status : ℕ
  pub bytes : ℕ

abbrev pub status_ok : ℕ
status_ok = 200

abbrev pub status_bad_gateway : ℕ
status_bad_gateway = 502

abbrev pub status_client_closed_request : ℕ
status_client_closed_request = 499

-- The recorder that Middleware makes.
abbrev pub new_recorder : {W : Type 0} → W → StatusRecorder W
new_recorder w = record { writer = w; status = status_ok; bytes = 0 }

module _ {W : Type 0} (inner : ResponseWriter W) where
  abbrev counted : StatusRecorder W → W × (ℕ × Bool) → StatusRecorder W × (ℕ × Bool)
  counted r (w, (n, failed)) = (record r { writer = w; bytes = r.bytes + n }, (n, failed))

  -- WriteHeader and Write.
  unfoldable pub recorder : ResponseWriter (StatusRecorder W)
  recorder = record {
    write_header = λ code r. record r { status = code; writer = inner.write_header code r.writer };
    write = λ b r. counted r (inner.write b r.writer);
  }

-- http.Error.
abbrev pub error_text : {W : Type 0} → ResponseWriter W → ℕ → Text → W → W
error_text writer code message w =
    (writer.write (message ++ b'\n' ∷ []) (writer.write_header code w)).0

-- errorHandler's function behind Middleware, where `cancelled` says that the request's context is.
unfoldable pub error_handler :
    {W : Type 0} → ResponseWriter W → Bool → StatusRecorder W → StatusRecorder W
error_handler inner cancelled r =
    if cancelled
    then record r { status = status_client_closed_request }
    else error_text (recorder inner) status_bad_gateway (codes "bad gateway") r
