-- ===== src/App/Main.antt =====
-- cmd/gateway/main.go: main. The flags, the log and the signals' delivery are left out; what the
-- process meets is an argument.
use turnike.Common.{
  ℕ, Bool, true, false, Option, List, [], In, Text, text_eq, text_eq_iff, Result, ok, err, ◌≡◌, ◌⊎◌,
  ◌↔◌, inl, inr, refl, ap, ◌∙◌, arith,
}
use turnike.Config.{Config, backend_redis}
use turnike.Config.Validate.{Url, Decoded, parse}
use turnike.Config.Validate.Sound.{parse-IsSound}
use turnike.Config.Load.{Bytes, LoadError, load, load-eq-ok}
use turnike.Metrics.{new_metrics}
use turnike.Limiter.Float.{Float}
use turnike.Limiter.Select
use turnike.Proxy.Handler.{gateway_on_error}
use turnike.Proxy.Upstreams.{new_gateway}
use turnike.Proxy.Upstreams.Built.{new_gateway-built}
use turnike.App.Shutdown.{
  Action, Event, Exit, clean, failed, Life, life, serve_returned, cancelled, close_redis, life_exit,
}

-- Whether the listener can be bound, and what ends the server.
pub record Fate : Type 0 where
  pub bound : Bool
  pub event : Event

abbrev is_ok {ℓ κ} : {E : Type κ} {A : Type ℓ} → Result E A → Bool
is_ok (ok a) = true
is_ok (err e) = false

abbrev pub exit_code : Exit → ℕ
exit_code clean = 0
exit_code failed = 1

exit_clean : (e : Exit) → exit_code e ≡ 0 → e ≡ clean
exit_clean clean h = refl
exit_clean failed h = absurd (omega arith)

loaded-injective : {c d : Config} → ◌≡◌ {A = Result LoadError Config} (ok c) (ok d) → c ≡ d
loaded-injective h = cc

module _ (fl : Float) (R : Type 0) (parse_url : Text → Option Url) where
  -- The life of run under a configuration.
  life_of : Config → R → Fate → Life
  life_of c server f =
      let (m, made) = Select.new fl R c.limiter server new_metrics in
      record {
        bound = f.bound;
        limiter_made = is_ok made;
        redis = text_eq c.limiter.backend backend_redis;
        handler_made = is_ok (new_gateway parse_url c.routes (gateway_on_error c.limiter) m).1;
        event = f.event;
      }

  run_loaded : R → Fate → Result LoadError Config → List Action × ℕ
  unfolding life_of
  run_loaded server f (err e) = ([], 1)
  run_loaded server f (ok c) =
      let (actions, exit) = life (life_of c server f) in (actions, exit_code exit)

  -- What main does, and the process's exit code.
  unfoldable pub main :
      (Bytes → Decoded) → (Text → Option Bytes) → Text → R → Fate → List Action × ℕ
  unfolding run_loaded
  main decode read_file path server f = run_loaded server f (load parse_url decode read_file path)

  life_of-made :
      (d : Decoded) (c : Config) (server : R) (f : Fate)
      → parse parse_url d ≡ ok c
      → ((life_of c server f).limiter_made ≡ true) × ((life_of c server f).handler_made ≡ true)
  unfolding life_of
  life_of-made d c server f parsed =
      let (b, m, made, _, _) =
        Select.new-ok fl R c.limiter server (parse-IsSound parse_url d c parsed).backend in
      rw (made, (new_gateway-built parse_url d c (gateway_on_error c.limiter) m parsed).0)
        (refl, refl)

  ended :
      (server : R) (f : Fate) (r : Result LoadError Config)
      → ((c : Config) → r ≡ ok c → (d : Decoded) × (parse parse_url d ≡ ok c))
      → (((run_loaded server f r).1 ≡ 0) ↔ (
          (c : Config) × (r ≡ ok c)
          × (f.bound ≡ true)
          × ((f.event ≡ serve_returned true) ⊎ (f.event ≡ cancelled true))))
        × (In close_redis (run_loaded server f r).0
            ↔ ((c : Config) × (r ≡ ok c) × (f.bound ≡ true) × (c.limiter.backend ≡ backend_redis)))
        × (((run_loaded server f r).0 ≡ []) ↔ (((e : LoadError) × (r ≡ err e)) ⊎ (f.bound ≡ false)))
  unfolding run_loaded
  ended server f (err e) parsed = (
    (λ h. absurd (omega arith), λ h. absurd (cc (h.1))),
    (λ h. absurd h, λ h. absurd (cc (h.1))),
    (λ h. inl (e, refl), λ h. refl),
  )
  ended server f (ok c) parsed =
      let (d, known) = parsed c refl in
      let (made, handled) = life_of-made d c server f known in
      let (exit, closed, idle) = life_exit (life_of c server f) made handled in
      let redis = text_eq_iff c.limiter.backend backend_redis in
      (
        (
          λ h. (let (bound, why) = exit.0 (exit_clean _ h) in (c, refl, bound, why)),
          λ h. ap exit_code (exit.1 (h.2, h.3)),
        ),
        (
          λ h. (c, refl, (closed.0 h).0, redis.0 (closed.0 h).1),
          λ h. closed.1 (h.2, redis.1 (ap (λ x. x.limiter.backend) (loaded-injective h.1) ∙ h.3)),
        ),
        (λ h. inr (idle.0 h), λ h. idle.1 (elim h [ inl e ↦ absurd (cc (e.1)) | inr b ↦ b ])),
      )

  -- The process exits with 0 exactly if the file loads, the listener is bound, and the server is then
  -- closed or drained; it closes a redis client exactly if the file loads with the redis backend and
  -- the listener is bound; and it does nothing at all exactly if the file does not load or the listener
  -- is not bound.
  pub main_exit :
      (decode : Bytes → Decoded) (read_file : Text → Option Bytes) (path : Text) (server : R)
      (f : Fate)
      → let (actions, code) = main decode read_file path server f in
        let loaded = load parse_url decode read_file path in
        ((code ≡ 0) ↔ (
          (c : Config) × (loaded ≡ ok c)
          × (f.bound ≡ true)
          × ((f.event ≡ serve_returned true) ⊎ (f.event ≡ cancelled true))))
        × (In close_redis actions ↔ (
            (c : Config) × (loaded ≡ ok c)
            × (f.bound ≡ true)
            × (c.limiter.backend ≡ backend_redis)))
        × ((actions ≡ []) ↔ (((e : LoadError) × (loaded ≡ err e)) ⊎ (f.bound ≡ false)))
  unfolding main
  main_exit decode read_file path server f =
      ended server f (load parse_url decode read_file path) (λ c h.
        let (content, _, parsed) = load-eq-ok parse_url decode read_file path c h in
        (decode content, parsed))
