-- ===== src/Tests/Agents.antt =====
-- The theorems on the agent graph, at a concrete proposal that the gate accepts in part.
use open_mal_lab.Common.{Option, ◌≡◌, sym, ap, true, false, [], ◌∷◌, some, lit}
use mathlib.Core.Option.{some-injective}
use open_mal_lab.Knowledge.GraphStore.{new_mem_graph_with_cap}
use open_mal_lab.AiPlane.Graduation.{new_graduation}
use open_mal_lab.AiPlane.Calibration.{new_calibration}
use open_mal_lab.Orchestrator.Adjudication.{Plane}
use open_mal_lab.Orchestrator.Agents.{
  ReviewDecision, arrives, lost_after, Events, agent_graph_workflow,
}
use open_mal_lab.Orchestrator.Agents.Raised.{Raises, workflow-Raises}
use open_mal_lab.Orchestrator.Agents.Approved.{SameGraph, unapproved-SameGraph}
use open_mal_lab.Orchestrator.Enrichment.{AiPlane, enrichment_workflow}
use open_mal_lab.Orchestrator.Enrichment.Caged.{HasLedger, enrichment_workflow-Raises}
use open_mal_lab.Tests.Floats.{fractions}
use open_mal_lab.Tests.AiPlane.{gate, ledger, ledger_verified}
use open_mal_lab.Tests.Enrichment.{library, provider, result}

abbrev rejection : ReviewDecision
rejection = record { approved = false; note = lit "no" }

abbrev events : Events fractions
events = record {
  roster = some (record {
    configured = true;
    proposal_json = b'{' ∷ [];
    signals = [];
    retrieval_tiers = lit "L0" ∷ [];
  });
  gate = arrives;
  decision = some rejection;
  record_run = lost_after;
  curate_run = arrives;
  observe_run = arrives;
}

abbrev plane : Plane fractions
plane = record {
  gate = some gate;
  ledger = some ledger;
  graph = some (new_mem_graph_with_cap 100);
  grad = some (new_graduation fractions);
  calibration = some new_calibration;
}

workflow-Raises_example :
    Raises fractions result (agent_graph_workflow fractions library events result plane).0
workflow-Raises_example = workflow-Raises fractions library events result plane

not_approved : (d : ReviewDecision) → some rejection ≡ some d → d.approved ≡ false
not_approved d e = sym (ap (λ (r : ReviewDecision). r.approved) (some-injective _ _ e))

unapproved-SameGraph_example :
    SameGraph plane.graph (agent_graph_workflow fractions library events result plane).1.graph
unapproved-SameGraph_example =
    unapproved-SameGraph fractions library events result plane not_approved

abbrev ai_plane : Option (AiPlane fractions)
ai_plane = some (record { provider = some provider; gate = some gate; ledger = ledger })

enrichment_workflow-Raises_example :
    Raises fractions result (enrichment_workflow fractions library arrives ai_plane result).0
    × HasLedger fractions library (enrichment_workflow fractions library arrives ai_plane result).1
enrichment_workflow-Raises_example =
    enrichment_workflow-Raises fractions library arrives ai_plane result ledger_verified
