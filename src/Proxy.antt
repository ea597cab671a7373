-- ===== src/Proxy.antt =====
-- internal/proxy: the route table over cleaned paths, the client's identity, the gateway with its
-- rate-limit check, and the root handler.
pub mod Paths
pub mod Table
pub mod Identity
pub mod Gateway
pub mod Upstreams
pub mod Middleware
pub mod Recorder
pub mod Handler
pub mod Tests
