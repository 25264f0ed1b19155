-- ===== src/Queues.antt =====
-- ids/packet_queue.py: the bounded queues of the capture pipeline.
pub mod Defs
pub mod Accounting
pub mod Sampling
pub mod Retry
mod Tests
