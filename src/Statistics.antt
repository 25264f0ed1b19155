-- ===== src/Statistics.antt =====
-- The counters of storage/persistence.py, and the route of uni-srver.py that takes a sensor's.
pub mod Defs
pub mod Counters
pub mod Update
pub mod Accepted
mod Tests
