-- ===== src/Limiter/Tests.antt =====
-- Tests of the limiter at concrete input, and the examples of its theorems.
pub mod FixedPoint
pub mod Windows
pub mod Buckets
pub mod Tokens
pub mod Circuit
pub mod Keys
pub mod Logs
pub mod Backend
