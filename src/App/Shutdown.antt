-- ===== src/App/Shutdown.antt =====
-- cmd/gateway/main.go: how run ends, by the order of the calls that it makes on its way out.
use turnike.Common.{
  ℕ, ◌≢◌, keep, length, List, [], ◌∷◌, ◌++◌, Bool, true, false, ◌≡◌, ◌⊎◌, ◌↔◌, arith, if◌then◌else◌,
  In,
}

-- What run does to the world, or lets the HTTP server do: the listener is bound and closed, which is
-- ErrClosed and harmless the second time, requests are served and drained, and the redis client is
-- closed.
pub data Action : Type 0 where
  bind serving drain close_redis close_listener : Action

-- What the select sees first: Serve's return, which may be the expected ErrServerClosed, or the
-- cancelled context with the outcome of Shutdown.
pub data Event : Type 0 where
  serve_returned : (closed : Bool) → Event
  cancelled : (drained : Bool) → Event

-- Whether run returns an error.
pub data Exit : Type 0 where
  clean failed : Exit

-- What can go wrong before the server runs, and what ends it.
pub record Life : Type 0 where
  pub bound : Bool
  pub limiter_made : Bool
  pub redis : Bool
  pub handler_made : Bool
  pub event : Event

-- Serve and Shutdown close the listener themselves: Serve when it returns, and Shutdown, of a
-- server that serves, before it drains.
select : Event → List Action × Exit
select (serve_returned true) = (close_listener ∷ [], clean)
select (serve_returned false) = (close_listener ∷ [], failed)
select (cancelled true) = (close_listener ∷ drain ∷ [], clean)
select (cancelled false) = (close_listener ∷ drain ∷ [], failed)

-- Actions and then the deferred ones, the last deferred first.
defers : List Action × Exit → List Action → List Action × Exit
defers (actions, exit) deferred = (actions ++ deferred, exit)

-- From the handler on.
listening : Life → List Action × Exit
unfolding select
listening l =
    if l.handler_made then (serving ∷ (select l.event).0, (select l.event).1) else ([], failed)

-- From the limiter on; a redis limiter's Close is deferred once it is made.
limited : Life → List Action × Exit
unfolding listening defers
limited l =
    if l.limiter_made
    then defers (listening l) (if l.redis then close_redis ∷ [] else [])
    else ([], failed)

-- run, whose serve defers the listener's Close first, for the error returns before Serve starts.
unfoldable pub life : Life → List Action × Exit
unfolding limited defers
life l =
    if l.bound
    then (bind ∷ (defers (limited l) (close_listener ∷ [])).0, (limited l).1)
    else ([], failed)

-- The first does not come after the second.
abbrev pub Before : Action → Action → List Action → Type 0
Before a b [] = Unit
Before a b (x ∷ xs) = (x ≡ b → ¬ In a xs) × Before a b xs

-- The second does not come unless the first has come.
abbrev pub Precedes : Action → Action → List Action → Type 0
Precedes a b [] = Unit
Precedes a b (x ∷ xs) = (x ≡ a) ⊎ ((x ≢ b) × Precedes a b xs)

abbrev pub is_close : Action → Bool
is_close close_listener = true
is_close _ = false

-- How often the listener is closed.
abbrev pub closes : List Action → ℕ
closes actions = length (keep is_close actions)

-- With a limiter and a handler, what is left to go wrong is the listener and the server's end.
pub life_exit :
    (l : Life)
    → l.limiter_made ≡ true
    → l.handler_made ≡ true
    → (((life l).1 ≡ clean)
        ↔ ((l.bound ≡ true) × ((l.event ≡ serve_returned true) ⊎ (l.event ≡ cancelled true))))
      × (In close_redis (life l).0 ↔ ((l.bound ≡ true) × (l.redis ≡ true)))
      × (((life l).0 ≡ []) ↔ (l.bound ≡ false))
unfolding life limited listening defers select
life_exit l made handled = ground arith
