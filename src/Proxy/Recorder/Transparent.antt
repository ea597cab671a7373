-- ===== src/Proxy/Recorder/Transparent.antt =====
-- internal/proxy/middleware.go and gateway.go: what the access log's status and bytes are, and that the
-- client sees nothing of the recorder.
use turnike.Common.{
  ℕ, ◌+◌, Bool, true, false, Option, none, some, List, [], ◌∷◌, Text, codes, ◌≡◌, refl, sym, ap,
  ◌∙◌, arith,
}
use turnike.Proxy.Recorder.{ResponseWriter, StatusRecorder, new_recorder, recorder, error_handler}

-- What a handler does with its ResponseWriter.
pub data Use : Type 0 where
  header : (code : ℕ) → Use
  body : Text → Use

-- What it is told.
abbrev pub Told : Type 0
Told = Option (ℕ × Bool)

module _ {W : Type 0} (writer : ResponseWriter W) where
  unfoldable pub do_use : Use → W → W × Told
  do_use (header code) w = (writer.write_header code w, none)
  do_use (body b) w = let out = writer.write b w in (out.0, some out.1)

  -- The uses in order, with what they are told.
  unfoldable pub do_uses : List Use → W → W × List Told
  unfolding do_use
  do_uses [] w = (w, [])
  do_uses (u ∷ us) w =
      let out = do_use u w in let rest = do_uses us out.0 in (rest.0, out.1 ∷ rest.1)

-- The last status that was written, or the one that stood before.
unfoldable pub status_after : ℕ → List Use → ℕ
status_after status [] = status
status_after status (header code ∷ us) = status_after code us
status_after status (body b ∷ us) = status_after status us

-- All the bytes that were taken.
unfoldable pub taken : List Told → ℕ
taken [] = 0
taken (none ∷ ts) = taken ts
taken (some (n, failed) ∷ ts) = n + taken ts

module _ {W : Type 0} (inner : ResponseWriter W) where
  -- What uses of a recorder come to: the writer behind it and what the handler is told are as without
  -- it; the status is the last one written; the bytes are those that were taken.
  recorded :
      (r : StatusRecorder W) (us : List Use)
      → let out = do_uses (recorder inner) us r in
        let plain = do_uses inner us r.writer in
        (out.0.writer ≡ plain.0)
        × (out.1 ≡ plain.1)
        × (out.0.status ≡ status_after r.status us)
        × (out.0.bytes ≡ r.bytes + taken plain.1)
  unfolding do_uses do_use recorder status_after taken
  recorded r [] = (refl, refl, refl, omega arith)
  recorded r (header code ∷ us) =
      let (same, told, status, bytes) =
        recorded (record r { status = code; writer = inner.write_header code r.writer }) us in
      (same, ap (λ ts. none ∷ ts) told, status, bytes)
  recorded r (body b ∷ us) =
      let (w, (n, failed)) = inner.write b r.writer in
      let (same, told, status, bytes) =
        recorded (record r { writer = w; bytes = r.bytes + n }) us in
      (same, ap (λ ts. some (n, failed) ∷ ts) told, status, omega (arith, bytes))

  -- What the client gets when the upstream fails and has not been given up.
  abbrev pub bad_gateway : List Use
  bad_gateway = header 502 ∷ body (codes "bad gateway\n") ∷ []

  error_handler-failed :
      (r : StatusRecorder W)
      → error_handler inner false r ≡ (do_uses (recorder inner) bad_gateway r).0
  unfolding error_handler recorder do_uses
  error_handler-failed r = refl

  -- A handler behind Middleware is told what the server's own writer would tell it, and the client
  -- gets the same; the log has the last status written, or 200, and all bytes that were taken. When
  -- the upstream then fails, a client that is gone gets nothing more and the log has 499; any other
  -- client gets a 502, and so has the log.
  pub log_line :
      (w : W) (us : List Use)
      → let out = do_uses (recorder inner) us (new_recorder w) in
        let plain = do_uses inner us w in
        let gone = error_handler inner true out.0 in
        let failed = error_handler inner false out.0 in
        ((out.0.writer ≡ plain.0)
          × (out.1 ≡ plain.1)
          × (out.0.status ≡ status_after 200 us)
          × (out.0.bytes ≡ taken plain.1))
        × ((gone.writer ≡ plain.0) × (gone.status ≡ 499) × (gone.bytes ≡ taken plain.1))
        × ((failed.writer ≡ (do_uses inner bad_gateway plain.0).0)
            × (failed.status ≡ 502)
            × (failed.bytes ≡ taken plain.1 + taken (do_uses inner bad_gateway plain.0).1))
  unfolding error_handler status_after
  log_line w us =
      let (same, told, status, bytes) = recorded (new_recorder w) us in
      let r = (do_uses (recorder inner) us (new_recorder w)).0 in
      let (same', _, status', bytes') = recorded r bad_gateway in
      (
        (same, told, status, omega (arith, bytes)),
        (same, refl, omega (arith, bytes)),
        rw (error_handler-failed r, sym same)
            (
              same',
              status',
              bytes'
                  ∙ ap (λ n. n + taken (do_uses inner bad_gateway r.writer).1)
                      (omega (arith, bytes)),
            ),
      )
