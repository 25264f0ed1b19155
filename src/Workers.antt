-- ===== src/Workers.antt =====
-- The analysis workers of ids_engine.py and their watchdog, ids/worker_monitoring.py.
pub mod Defs
pub mod Single
mod Tests
