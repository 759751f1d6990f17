-- ===== src/Orchestrator.antt =====
-- services/mal-orchestrator: the submission workflow.
pub mod Crumb
pub mod Workflow
pub mod Gates
pub mod Walk
pub mod Safety
pub mod Jail
pub mod Activity
pub mod Extract
pub mod Learning
pub mod Adjudication
pub mod Agents
pub mod Enrichment
