-- ===== src/Analysis.antt =====
-- ids/ai_analysis.py: the risk of a packet from the model, the behaviour of its source, the
-- heuristics and the threat intelligence, and its classification.
pub mod Signals
pub mod Risk
pub mod Classify
pub mod Packet
pub mod RiskBounds
pub mod Severity
pub mod Verdicts
mod Tests
