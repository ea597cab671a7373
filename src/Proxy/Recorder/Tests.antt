-- ===== src/Proxy/Recorder/Tests.antt =====
-- The recorder before a writer that keeps what it was sent and takes three bytes at most.
use turnike.Common.{
  ℕ, ltb, ◌+◌, Bool, true, false, some, none, Option, List, [], ◌∷◌, length, codes, ◌≡◌, refl,
  if◌then◌else◌,
}
use turnike.Proxy.Recorder.{ResponseWriter, new_recorder, recorder, error_handler}
use turnike.Proxy.Recorder.Transparent.{
  Use, header, body, do_uses, status_after, taken, bad_gateway, log_line,
}

abbrev wire : ResponseWriter (List ℕ)
wire = record {
  write_header = λ code w. code ∷ w;
  write = λ b w. if ltb 3 (length b) then (3 ∷ w, (3, true)) else (length b ∷ w, (length b, false));
}

abbrev uses : List Use
uses = header 404 ∷ body (codes "abc") ∷ body (codes "defg") ∷ []

abbrev logged : List ℕ × List (Option (ℕ × Bool))
logged = do_uses wire uses []

told : logged ≡ (3 ∷ 3 ∷ 404 ∷ [], none ∷ some (3, false) ∷ some (3, true) ∷ [])
unfolding do_uses
told = refl

log_line_example :
    let out = do_uses (recorder wire) uses (new_recorder []) in
    let gone = error_handler wire true out.0 in
    let failed = error_handler wire false out.0 in
    ((out.0.writer ≡ logged.0)
      × (out.1 ≡ logged.1)
      × (out.0.status ≡ status_after 200 uses)
      × (out.0.bytes ≡ taken logged.1))
    × ((gone.writer ≡ logged.0) × (gone.status ≡ 499) × (gone.bytes ≡ taken logged.1))
    × ((failed.writer ≡ (do_uses wire (bad_gateway wire) logged.0).0)
        × (failed.status ≡ 502)
        × (failed.bytes ≡ taken logged.1 + taken (do_uses wire (bad_gateway wire) logged.0).1))
log_line_example = log_line wire [] uses
