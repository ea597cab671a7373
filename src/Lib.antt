-- ===== src/Lib.antt =====
-- turnike is a rate-limiting reverse proxy. A configuration is parsed and validated
-- (internal/config); each request is matched to a route by the longest prefix of its cleaned path,
-- its client identified, and the limiter asked under a key made of the two (internal/proxy); the
-- limiter keeps one bucket for each algorithm and key, in memory or in redis behind a circuit
-- breaker with an in-memory fallback (internal/limiter). cmd/gateway puts the parts together around
-- one set of instruments (internal/metrics). This library models these parts function by function,
-- with explicit state, and proves what they promise each other and the client.
--
-- Files and code:
-- - Common: native numbers, signed integers (Go's int and time.Duration), byte strings, lists,
--   results.
-- - Config: the types and constants of internal/config/config.go; Config/Limits its withDefaults,
--   Limit.validate and LimitFor; Config/Validate its applyDefaults, validate and Parse, with an
--   error constructor for each error that the code returns, and Config/Load is Load and
--   Duration.UnmarshalYAML.
-- - Metrics: the instruments of internal/metrics/metrics.go with New, SetActiveBackend and
--   InitRoute; a counter is an association list, the histogram the number of its observations;
--   Metrics/Flips is SetActiveBackend called by many goroutines at once, its mutex and its two
--   writes each a step.
-- - Limiter: Decision of internal/limiter/limiter.go; Limiter/FixedWindow, SlidingWindow and
--   TokenBucket are step of fixed_window.go, sliding_window.go and token_bucket.go as functions
--   from a bucket to a bucket and a decision; Limiter/Memory is MemoryLimiter.Allow of memory.go,
--   the map an association list; Limiter/Breaker is breaker.go, where admit and record are steps of
--   their own, so that calls in flight interleave (Limiter/Breaker/Concurrent); Limiter/Redis is
--   NewRedisLimiter (with its eager load in Limiter/Redis/Boot), RedisLimiter.Allow and
--   decisionFromReply of redis.go, whose reading of a reply is set down in Limiter/Redis/Replies;
--   Limiter/Select is New and the Limiter interface over both backends, Limiter/Instruments the
--   hooks that New takes.
-- - Limiter/Scripts: internal/limiter/scripts/fixed_window.lua (Fixed), sliding_window.lua
--   (Sliding, over the sorted set of Zset) and token_bucket.lua (Bucket) as functions from the
--   key's value and the clock to a value and a reply; the expiry of a key is an argument of the
--   sequences of calls in their Quota files (in Bucket/Parity a key does not expire), and
--   Fixed/Parity, Sliding/Parity and Bucket/Parity set them beside fixed_window.go,
--   sliding_window.go and token_bucket.go.
-- - Proxy/Paths and Proxy/Table are hasDotSegments, path.Clean, NewTable and Match of
--   internal/proxy/gateway.go and table.go; Proxy/Identity is identity.go; Proxy/Gateway is
--   Gateway.ServeHTTP of gateway.go, over any limiter, its state and the counter increments passed
--   on; Proxy/Upstreams is NewGateway of gateway.go; Proxy/Middleware is the request id, the route
--   holder and the histogram of middleware.go; Proxy/Recorder is its statusRecorder and the
--   errorHandler of gateway.go, between a handler and any ResponseWriter; Proxy/Handler is the
--   dispatch of NewHandler of handler.go, and Proxy/Handler/Pages writeText and, of demo.go,
--   serveDemoPage.
-- - App: serve of cmd/gateway/main.go up to where it listens (start), and NewHandler's handler on
--   the gateway that listens (handle, run); App/Shutdown is the order in which run, and the HTTP
--   server for it, binds, serves, drains and closes; App/Main is main with its exit codes;
--   App/Concurrent is the same middleware and gateway with requests in flight at once, each a
--   goroutine that runs from one shared access or call that may block to the next.
--
-- How they meet: Proxy/Gateway takes the limiter as a parameter, a function from a key, a limit and
-- a state to a new state and a result; Proxy/Gateway/System puts Limiter/Memory there, with the
-- limits of a parsed configuration, Proxy/Gateway/Quota follows one client's requests through both
-- down to Limiter/SlidingWindow and Limiter/FixedWindow, and App whatever Limiter/Select makes of
-- the configuration, with the reverse proxies of Proxy/Upstreams and the counter of Metrics.
-- Limiter/Redis takes the script call as a parameter and holds a Limiter/Breaker and a
-- Limiter/Memory. Every clock reading is an argument, in nanoseconds since Go's zero time, or in
-- microseconds since the Unix epoch in Limiter/Scripts. A mutex makes the call that holds it one
-- step (but in Metrics/Flips), and so does redis with a script. App takes requests one after the
-- other, App/Concurrent in every interleaving of their steps.
--
-- Bounds: there is no fuel, every recursion is structural. Numbers are exact: that times, durations
-- and counts stay within int64, and Lua's numbers within float64's exact integers, is not modelled.
-- Go's float64 is the parameter Limiter/Float, with the laws that token_bucket.go relies on
-- (monotone rounding, exact integers below 2 ^ 53); a fixed-point arithmetic in
-- Limiter/Tests/FixedPoint has them all. The Retry-After seconds of Proxy/Gateway are the ceiling
-- of a float64 that is rounded to the nearest (ceil_sum), which is written out for it.
--
-- Parameters that stand for code elsewhere: the YAML decoder, url.Parse, time.ParseDuration,
-- os.ReadFile, strconv.Itoa, the embedded HTML, net.SplitHostPort, the fingerprint of an API key,
-- the random request id of crypto/rand and encoding/hex, http.ResponseWriter, the redis server with
-- its client, and its sorted sets. Not modelled: logging, the Prometheus registry, the reverse
-- proxy's transport and its copying of a response, the HTTP server with its timeouts, the command's
-- flags, and mock.
pub mod Common
pub mod Config
pub mod Metrics
pub mod Limiter
pub mod Proxy
pub mod App
