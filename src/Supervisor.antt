-- ===== src/Supervisor.antt =====
-- runtime/process_supervisor.py: the three child processes and the loop that watches them.
pub mod Defs
pub mod Stop
pub mod Restart
mod Tests
