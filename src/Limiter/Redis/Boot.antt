-- ===== src/Limiter/Redis/Boot.antt =====
-- internal/limiter/redis.go: NewRedisLimiter with its eager load of the scripts. SCRIPT LOAD is a
-- parameter: it takes the server's state to a new one, and may fail. Go's order over the map of scripts
-- is an argument.
use turnike.Common.{Bool, false, List, [], ◌∷◌, Text, ◌≡◌, refl, ap, if◌then◌else◌}
use turnike.Config.{algo_fixed_window, algo_token_bucket, algo_sliding_window}
use turnike.Limiter.Float.{Float}
use turnike.Limiter.Redis.{RedisLimiter, new_redis_limiter}

-- The algorithms that have a script, in one order.
abbrev pub scripted : List Text
scripted = algo_fixed_window ∷ algo_token_bucket ∷ algo_sliding_window ∷ []

module _ {R : Type 0} (load : Text → R → R × Bool) where
  -- The loop: a failed load is only warned of.
  unfoldable pub load_scripts : List Text → R → R × List Text
  load_scripts [] server = (server, [])
  load_scripts (algorithm ∷ algorithms) server =
      let (server', loaded) = load algorithm server in
      let rest = load_scripts algorithms server' in
      (rest.0, if loaded then rest.1 else algorithm ∷ rest.1)

  -- The limiter, and the algorithms that are warned of.
  unfoldable pub boot : (fl : Float) → List Text → Text → R → RedisLimiter fl.F R × List Text
  unfolding load_scripts
  boot fl order on_error server =
      let made = new_redis_limiter fl R on_error server in
      let (server', warned) = load_scripts order made.server in
      (record made { server = server' }, warned)

  -- Whatever the loads come to, construction gives a limiter with a closed circuit and redis as the
  -- active backend, that of the server after all loads; and it warns of every script if all loads fail.
  pub boot-new_redis_limiter :
      (fl : Float) (order : List Text) (on_error : Text) (server : R)
      → (boot fl order on_error server).0
        ≡ new_redis_limiter fl R on_error (load_scripts order server).0
  unfolding boot new_redis_limiter
  boot-new_redis_limiter fl order on_error server = refl

  pub load_scripts-warned :
      (order : List Text) (server : R)
      → ((algorithm : Text) (s : R) → (load algorithm s).1 ≡ false)
      → (load_scripts order server).1 ≡ order
  unfolding load_scripts
  load_scripts-warned [] server down = refl
  load_scripts-warned (a ∷ others) server down =
      rw (down a server) (ap (λ l. a ∷ l) (load_scripts-warned others (load a server).0 down))
