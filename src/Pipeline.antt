-- ===== src/Pipeline.antt =====
-- internal/pipeline: the contract that the services share.
pub mod Verdict
pub mod Confidence
pub mod Json
pub mod Types
pub mod Score
