-- ===== src/Bypass.antt =====
-- The rules of ssl_inspect/bypass.py that let connections pass without interception.
pub mod Rules
pub mod Lines
pub mod Sync
pub mod Sets
pub mod Chain
pub mod Edits
pub mod Refine
pub mod Partial
pub mod Failing
mod Tests
