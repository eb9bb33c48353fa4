-- ===== src/Worker.antt =====
-- src/embedder/worker: the worker threads.
pub mod Breaker
pub mod Retry
pub mod Fatal
pub mod Propagation
pub mod Dispatch
pub mod Run
pub mod Startup
pub mod Readiness
pub mod Counters
pub mod Clients
mod Tests
mod LoopTests
