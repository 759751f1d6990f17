-- ===== src/AiPlane.antt =====
-- internal/aiplane: the trusted side of the AI-analyst plane.
pub mod Graduation
pub mod Calibration
pub mod Contract
pub mod Cleaning
pub mod Validation
pub mod Gate
pub mod Ledger
pub mod Facade
