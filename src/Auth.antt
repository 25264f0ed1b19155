-- ===== src/Auth.antt =====
-- intelligence/sensor_auth.py: signed telemetry requests and the record of the nonces seen.
pub mod Canonical
pub mod Nonces
pub mod Verify
pub mod Replay
pub mod Accept
mod Tests
