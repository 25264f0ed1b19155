-- ===== src/Dns.antt =====
-- The DNS heuristics of engine/dns_behavior.py.
pub mod Names
pub mod Defs
pub mod Shard
mod Tests
