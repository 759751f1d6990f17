-- ===== src/Lib.antt =====
-- OpenMalLab takes a suspicious file, has it analyzed by engines that run in jails, and returns a
-- verdict with a triage score. This library models the trusted code around the hostile parts.
--
-- The parts, and the files that model them:
--
-- * Pipeline (internal/pipeline/types.go). Pipeline/Verdict and Pipeline/Confidence hold the two
--   axes `Verdict` and `Confidence` with `Max`, the parsers and `ConfidenceFor`; Pipeline/Json the
--   JSON forms; Pipeline/Types the records; Pipeline/Score the function `ScoreFindings` with
--   `sortDesc`, whose array is two lists, the sorted part nearest its end first.
-- * Orchestrator (services/mal-orchestrator/workflow.go). `SubmissionWorkflow` walks the tree of
--   artifacts. Its local variables are the record `Run`; Orchestrator/Workflow holds the closure
--   `fold`, Orchestrator/Walk the loop, Orchestrator/Gates the tests on what was identified, and
--   Orchestrator/Crumb the functions `crumb` and `clampBytes` on bytes. The outcome of every
--   activity is a parameter, so that a theorem holds whatever the engines report.
--   Orchestrator/Jail models jail.go: the recipe of a container and the capped capture of its output.
--   Orchestrator/Activity and Orchestrator/Extract model activity.go: the path of a worker's output
--   through the broker, and the ingest of extracted children into the vault, a map from names to
--   bytes. The container engine, the staged files and the failures of the file system are parameters.
--   Orchestrator/Learning models learn.go. The trusted half of agentgraph.go with hitl.go is
--   Orchestrator/Adjudication, the activity of the gate and the one that records the outcome of a
--   review, and Orchestrator/Agents, the function `AgentGraphWorkflow` around them. The answers
--   of the agents, lost activities and the analyst's decision are the record `Events`.
--   Orchestrator/Enrichment models enrichment.go, the other workflow around the AI plane.
-- * Broker (services/mal-broker/validate.go). `validate` stands between a jailed engine and the
--   orchestrator; what it lets through is what an activity reports.
-- * Knowledge (internal/knowledge). Knowledge/Keys and Knowledge/Store model the keys and the store
--   of registry.go, Knowledge/Registry its operations and the citation check, and
--   Knowledge/Similarity the index of similarity.go that a curation is mirrored into.
--   Knowledge/Similarity/Nearest is its query, and Knowledge/Registry/Fuzzy the function `FuzzyKeys`.
--   Knowledge/GraphStore, Knowledge/Graph and Knowledge/Graph/Walk model graph.go: the graph in
--   memory, the writes of nodes and relations, and the bounded walk with `Related`.
-- * AiPlane (internal/aiplane). AiPlane/Gate models the gate that decides what becomes of the
--   proposals of a language model: it asks Knowledge/Registry for every citation and
--   AiPlane/Graduation for every kind, and AiPlane/Calibration lowers the confidence that it reads.
--   AiPlane/Contract, AiPlane/Cleaning and AiPlane/Validation model contract.go: the records, the
--   cleaning of text, what the model is shown and the strict decoding of what it returns.
--   AiPlane/Ledger is the chain of handshakes, and AiPlane/Facade the entrypoint `Enrich` that puts
--   them together.
--
-- Common holds lists, bytes, UTF-8, association lists and the results of fallible code. Integers
-- that the program never makes negative are natural numbers; the 64-bit hashes of the similarity
-- index wrap around; Go strings are lists of bytes. Go's float64 is the parameter `Float64`, the
-- packages strings and crypto/sha256 are `Platform`, the package regexp and the tables of unicode are
-- `TextLibrary`, and encoding/json is a parameter where it is used. A mutex makes each operation one step, so operations are functions on the state.
--
-- The walk over the queue has fuel, `max_artifacts + 1`: each round but the last takes one artifact,
-- and the round after 200 artifacts stops. The walk over the graph has fuel, `max_nodes + 1`: each
-- round but the first takes a node that was counted when it was queued. Every other loop is structural recursion.
--
-- Not modelled: the semantic index and the persistence of internal/knowledge; the model providers of
-- internal/aiplane and its evaluation; the roster that calls the agents in
-- services/mal-orchestrator; the exports, the gateway and the web console. They are I/O, or code that
-- calls the parts above or stands beside them. Of the activities, the temporary files and the sweeps
-- at the start of the process are left out.
-- The services in other languages run in jails and are any outcome of an activity.
pub mod Common
pub mod Pipeline
pub mod Orchestrator
pub mod Broker
pub mod Knowledge
pub mod AiPlane
pub mod Tests
