-- ===== src/Burst.antt =====
-- alerts/dangerous_burst.py: burst alerts for each source address, and their limits.
pub mod Defs
pub mod Run
pub mod Guard
pub mod Spacing
pub mod Report
pub mod ReportLaws
mod Tests
