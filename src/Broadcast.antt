-- ===== src/Broadcast.antt =====
-- The live updates of ids/websocket_updates.py: listeners, and the broadcast to them.
pub mod Defs
pub mod Deliver
pub mod Run
mod Tests
