-- ===== src/EventTime.antt =====
-- ids/event_timestamp.py: the time of an event from what its sources say.
pub mod Defs
pub mod Units
mod Tests
