-- ===== src/Bootstrap.antt =====
-- src/bootstrap/ and the part of src/lib.rs that it completes: the memory budget of a worker, the
-- cost model, and the opening of the server.
pub mod Budget
pub mod Readiness
pub mod Opening
mod Tests
