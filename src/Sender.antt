-- ===== src/Sender.antt =====
-- The telemetry sender of api_client/sender.py.
pub mod Defs
pub mod Wait
pub mod Backoff
mod Tests
