-- ===== src/Orchestrator/Safety.antt =====
-- services/mal-orchestrator/workflow.go: the proofs about the walk and its result.
pub mod Keeps
pub mod Invariant
pub mod Covers
pub mod Termination
pub mod Growth
pub mod Reports
pub mod Coverage
pub mod FailClosed
