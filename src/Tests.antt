-- ===== src/Tests.antt =====
-- The theorems at concrete inputs.
mod Samples
mod Floats
mod Pipeline
mod Orchestrator
mod Broker
mod Knowledge
mod AiPlane
mod Enrichment
mod Graph
mod Activity
mod Agents
