-- ===== src/Behavior.antt =====
-- engine/behavior.py: floods and port scans by the recent activity of each source.
pub mod Defs
pub mod Scan
pub mod Shard
mod Tests
