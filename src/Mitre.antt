-- ===== src/Mitre.antt =====
-- intelligence/mitre.py: the map from the reasons of a packet to ATT&CK techniques.
pub mod Table
pub mod Defs
pub mod Order
mod Tests
