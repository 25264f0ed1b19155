-- ===== src/Enrichment.antt =====
-- ids/threat_intel.py: which answers of threat intelligence an event gets.
pub mod Defs
pub mod Blocklist
pub mod Pressure
mod Tests
