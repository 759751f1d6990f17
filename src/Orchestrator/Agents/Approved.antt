-- ===== src/Orchestrator/Agents/Approved.antt =====
-- services/mal-orchestrator/agentgraph.go: the curated graph under the agent graph.
use open_mal_lab.Common.{
  ◌≡◌, refl, Bool, false, not, ◌||◌, ◌==◌, List, [], ◌∷◌, Option, none, some, length, lit,
  Bool-cases, inl, inr,
}
use open_mal_lab.Common.Floats.{Float64}
use open_mal_lab.Common.Result.{Result, ok, err}
use open_mal_lab.Pipeline.Types.{SubmissionResult}
use open_mal_lab.Knowledge.GraphStore.{MemGraph}
use open_mal_lab.Knowledge.Graph.Guard.Tiers.{
  SameCurated, observation-SameCurated, self-SameCurated,
}
use open_mal_lab.AiPlane.Contract.{Proposal}
use open_mal_lab.AiPlane.Validation.{ProposalError, evidence_from, validate_proposal}
use open_mal_lab.AiPlane.Gate.{Gate}
use open_mal_lab.AiPlane.Ledger.{Handshake}
use open_mal_lab.AiPlane.Facade.{Library, start_handshake}
use open_mal_lab.Orchestrator.Learning.{ingest_learning_activity}
use open_mal_lab.Orchestrator.Learning.Tier.{learning-keeps}
use open_mal_lab.Orchestrator.Adjudication.{
  EscalatedItem, GateOutcome, GateInput, Plane, adjudicate, gate_with, gate_activity, record_items,
  record_outcome_activity, record_grad, record_cal,
}
use open_mal_lab.Orchestrator.Agents.{
  ReviewDecision, RosterOutcome, Delivery, arrives, lost_before, lost_after, takes_effect, Events,
  learn, after_decision, after_gate, after_roster, agent_graph_workflow, Finished,
}

-- Two graphs, or two times none.
abbrev pub SameGraph : Option MemGraph → Option MemGraph → Type 0
SameGraph none none = Unit
SameGraph none (some g) = ⊥
SameGraph (some m) none = ⊥
SameGraph (some m) (some g) = SameCurated m g

module _ (fl : Float64) (lib : Library) (old : Option MemGraph) where
  abbrev Holds : Plane fl → Type 0
  Holds pl = SameGraph old pl.graph

  learned :
      (input_result : SubmissionResult) (g : Option MemGraph)
      → SameGraph old g
      → SameGraph old
          (ingest_learning_activity lib.go g
            (record { result = input_result; confirmed = false })).1
  learned res none h = unfold ingest_learning_activity in h
  learned res (some g) h = by_old old h
    where
      by_old :
          (o : Option MemGraph)
          → SameGraph o (some g)
          → SameGraph o
              (ingest_learning_activity lib.go
                (some g)
                (record { result = res; confirmed = false })).1
      by_old none k = absurd k
      by_old (some m) k =
          let (g', e, same) =
            learning-keeps lib.go (SameCurated m) (observation-SameCurated lib.go m)
              (record { result = res; confirmed = false }) refl g k in
          rw e same

  observed :
      (d : Delivery) (res : SubmissionResult) (pl : Plane fl)
      → Holds pl
      → Holds (learn fl lib d false res pl)
  unfolding learn
  observed d res pl h = elim (Bool-cases (takes_effect d)) [
    | inl e ↦ rw e (learned res pl.graph h)
    | inr e ↦ rw e h
  ]

  recorded :
      (approved : Bool) (es : List EscalatedItem) (pl : Plane fl)
      → Holds pl
      → Holds (record_items fl lib.go approved pl es)
  unfolding record_items
  recorded approved [] pl h = h
  recorded approved (e ∷ es) pl h =
      recorded approved es
        (record pl {
          grad = record_grad fl pl.grad e.kind approved;
          calibration = record_cal lib.go pl.calibration e.kind e.confidence approved;
        })
        h

  decided :
      (ev : Events fl) (gate : GateOutcome) (res : SubmissionResult) (pl : Plane fl)
      (d : Option ReviewDecision)
      → ((x : ReviewDecision) → d ≡ some x → x.approved ≡ false)
      → Holds pl
      → Holds (after_decision fl lib ev gate res pl d)
  unfolding after_decision record_outcome_activity
  decided ev gate res pl none un h = h
  decided ev gate res pl (some d) un h = elim (Bool-cases (takes_effect ev.record_run)) [
    | inl e ↦ rw (e, un d refl) (recorded false gate.escalated pl h)
    | inr e ↦ rw (e, un d refl) h
  ]

  gate_kept :
      (pl : Plane fl) (input : GateInput fl) → Holds pl → Holds (gate_activity fl lib pl input).1
  unfolding gate_activity gate_with
  gate_kept pl input h = by_gate pl.gate
    where
      handshake : Handshake
      handshake = record (start_handshake fl lib (evidence_from lib.text input.result)) {
        provider = lit "agent-graph";
        proposal_hash = lib.digest input.proposal;
      }

      by_valid :
          (g : Gate fl) (r : Result ProposalError Proposal)
          → Holds (adjudicate fl lib g pl input handshake r).1
      by_valid g (err e) = unfold adjudicate in h
      by_valid g (ok p) = unfold adjudicate in h

      by_gate : (o : Option (Gate fl)) → Holds (gate_with fl lib pl input o).1
      by_gate none = h
      by_gate (some g) = elim (Bool-cases (length input.proposal == 0)) [
        | inl z ↦ rw z h
        | inr z ↦ rw z (by_valid g (validate_proposal lib.go lib.text lib.json input.proposal))
      ]

  after_gate_kept :
      (ev : Events fl) (res : SubmissionResult) (pl : Plane fl) (gate : GateOutcome)
      → ((x : ReviewDecision) → ev.decision ≡ some x → x.approved ≡ false)
      → Holds pl
      → Holds (after_gate fl lib ev res pl gate).1
  unfolding after_gate
  after_gate_kept ev res pl gate un h = elim (Bool-cases gate.needs_review) [
    | inl asked ↦ rw asked (observed ev.observe_run _ _ (decided ev gate _ pl ev.decision un h))
    | inr quiet ↦ rw quiet (observed ev.observe_run _ pl h)
  ]

self_SameGraph : (g : Option MemGraph) → SameGraph g g
self_SameGraph none = tt
self_SameGraph (some m) = self-SameCurated m

-- Unless the analyst's decision arrives and approves, a run of the agent graph leaves the curated part of the knowledge graph as it is: it neither adds nor
-- changes nor removes a curated node or edge, whatever the agents and the engines report.
pub unapproved-SameGraph :
    (fl : Float64) (lib : Library) (ev : Events fl) (res : SubmissionResult) (pl : Plane fl)
    → ((d : ReviewDecision) → ev.decision ≡ some d → d.approved ≡ false)
    → SameGraph pl.graph (agent_graph_workflow fl lib ev res pl).1.graph
unfolding agent_graph_workflow after_roster
unapproved-SameGraph fl lib ev res pl un = by_roster ev.roster
  where
    by_delivery :
        (d : Delivery) (t : GateOutcome × Plane fl)
        → SameGraph pl.graph t.1.graph
        → SameGraph pl.graph
            (elim d as (λ _. Finished fl) [
              | lost_before ↦ (res, pl, none)
              | lost_after ↦ (res, t.1, none)
              | arrives ↦ after_gate fl lib ev res t.1 t.0
            ]).1.graph
    by_delivery arrives t h = after_gate_kept fl lib pl.graph ev res t.1 t.0 un h
    by_delivery lost_before t h = self_SameGraph pl.graph
    by_delivery lost_after t h = h

    by_roster :
        (o : Option (RosterOutcome fl))
        → SameGraph pl.graph (after_roster fl lib ev res pl o).1.graph
    by_roster none = self_SameGraph pl.graph
    by_roster (some roster) =
        elim (Bool-cases (not roster.configured || length roster.proposal_json == 0)) [
          | inl off ↦ rw off (self_SameGraph pl.graph)
          | inr on ↦ rw on (
              by_delivery ev.gate (gate_activity fl lib pl (gate_input roster))
                (gate_kept fl lib pl.graph pl (gate_input roster) (self_SameGraph pl.graph)))
        ]
      where
        gate_input : RosterOutcome fl → GateInput fl
        gate_input r = record {
          result = res;
          proposal = r.proposal_json;
          signals = r.signals;
          retrieval_tiers = r.retrieval_tiers;
        }
