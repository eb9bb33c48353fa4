-- ===== src/Probe.antt =====
-- src/probe.rs and src/probe/: the memory that a batch takes is measured at startup, and a cost
-- model is fitted to it.
pub mod Fit
pub mod Corpus
pub mod Cache
pub mod Runner
pub mod Sweep
mod Tests
