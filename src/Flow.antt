-- ===== src/Flow.antt =====
-- engine/flow_manager.py: the counters of each flow, and the statistics of its last packet.
pub mod Defs
pub mod Moments
pub mod Table
mod Tests
