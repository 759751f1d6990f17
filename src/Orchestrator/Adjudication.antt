-- ===== src/Orchestrator/Adjudication.antt =====
-- services/mal-orchestrator/agentgraph.go: the trusted adjudication, that is the activity of the gate
-- and the one that records the outcome of a review.
use open_mal_lab.Common.Sorting.{sorted, str_lt}
use open_mal_lab.Common.{
  Bool, false, not, ◌&&◌, Str, List, [], ◌∷◌, ◌++◌, Option, none, some, ltb, ◌==◌, if◌then◌else◌,
  length, any, lit, str_eq,
}
use open_mal_lab.Common.Floats.{Float64}
use open_mal_lab.Common.Result.{Result, ok, err}
use open_mal_lab.Pipeline.Types.{Finding, SubmissionResult}
use open_mal_lab.Knowledge.Platform.{Platform}
use open_mal_lab.Knowledge.GraphStore.{MemGraph}
use open_mal_lab.AiPlane.Contract.{Proposal}
use open_mal_lab.AiPlane.Validation.{ProposalError, evidence_from, validate_proposal}
use open_mal_lab.AiPlane.Graduation.{Graduation, record_outcome}
use open_mal_lab.AiPlane.Calibration.{Calibration, record_claim}
use open_mal_lab.AiPlane.Gate.{
  is_escalate, SubmissionReason, GateSignals, GatedHypothesis, GateResult, Gate,
  evaluate_with_signals, enrichment_findings,
}
use open_mal_lab.AiPlane.Gate.Review.{accepted}
use open_mal_lab.AiPlane.Ledger.{Handshake, Ledger, append}
use open_mal_lab.AiPlane.Facade.{Library, cited_ids, start_handshake}

pub record EscalatedItem : Type 0 where
  pub kind : Str
  pub confidence : Str

pub record GateOutcome : Type 0 where
  pub findings : List Finding
  pub needs_review : Bool
  pub escalated : List EscalatedItem
  pub reasons : List SubmissionReason

-- GateOutcome{}
abbrev pub no_outcome : GateOutcome
no_outcome = record { findings = []; needs_review = false; escalated = []; reasons = [] }

pub record RecordInput : Type 0 where
  pub escalated : List EscalatedItem
  pub approved : Bool

unfoldable pub contains_str : List Str → Str → Bool
contains_str ss want = any (λ s. str_eq s want) ss

-- func (a *Analyzer) ledgerAppend
unfoldable pub ledger_append : Library → Handshake → Option Ledger → Option Ledger
ledger_append lib h none = none
ledger_append lib h (some l) = some (append lib.marshal_handshake lib.digest l h).1

-- The tiers that the handshake records.
unfoldable pub recorded_tiers : List Str → List Str → List Str
unfolding contains_str sorted
recorded_tiers cited tiers =
    if ltb 0 (length cited) && not (contains_str tiers (lit "L0"))
    then sorted str_lt (tiers ++ lit "L0" ∷ [])
    else tiers

unfoldable pub record_cal : Platform → Option Calibration → Str → Str → Bool → Option Calibration
record_cal go none kind confidence approved = none
record_cal go (some c) kind confidence approved = some (record_claim go c kind confidence approved)

module _ (fl : Float64) where
  pub record GateInput : Type 0 where
    pub result : SubmissionResult
    pub proposal : Str
    pub signals : List (GateSignals fl)
    pub retrieval_tiers : List Str

  -- The fields of `Analyzer` that the agent graph reads and writes. The gate keeps the graduation
  -- that it was made with; within one run of the workflow it decides before an outcome is recorded.
  pub record Plane : Type 0 where
    pub gate : Option (Gate fl)
    pub ledger : Option Ledger
    pub graph : Option MemGraph
    pub grad : Option (Graduation fl)
    pub calibration : Option Calibration

  unfoldable pub escalated_of : List (GatedHypothesis fl) → List EscalatedItem
  escalated_of [] = []
  escalated_of (gh ∷ ghs) =
      let rest = escalated_of ghs in
      if is_escalate gh.disposition
      then record { kind = gh.hypothesis.kind; confidence = gh.hypothesis.confidence } ∷ rest
      else rest

  unfoldable pub gated_handshake : Handshake → GateResult fl → List Str → Handshake
  unfolding recorded_tiers
  gated_handshake h gr tiers = record h {
    outcome = lit "gated";
    needs_human = gr.needs_human;
    accepted = accepted fl gr.hypotheses;
    cited_fact_ids = cited_ids fl gr.hypotheses;
    retrieval_tiers = recorded_tiers (cited_ids fl gr.hypotheses) tiers;
  }

  -- From the validated proposal to the outcome.
  unfoldable pub adjudicate :
      Library
      → Gate fl
      → Plane
      → GateInput
      → Handshake
      → Result ProposalError Proposal
      → GateOutcome × Plane
  unfolding ledger_append escalated_of gated_handshake
  adjudicate lib g pl input h (err e) = (
    no_outcome,
    record pl { ledger = ledger_append lib (record h { outcome = lit "rejected" }) pl.ledger },
  )
  adjudicate lib g pl input h (ok p) =
      let gr = evaluate_with_signals fl g (evidence_from lib.text input.result) p input.signals in
      (
        record {
          findings = enrichment_findings fl gr;
          needs_review = gr.needs_human;
          escalated = escalated_of gr.hypotheses;
          reasons = gr.reasons;
        },
        record pl {
          ledger = ledger_append lib (gated_handshake h gr input.retrieval_tiers) pl.ledger;
        },
      )

  unfoldable pub gate_with : Library → Plane → GateInput → Option (Gate fl) → GateOutcome × Plane
  unfolding adjudicate
  gate_with lib pl input none = (no_outcome, pl)
  gate_with lib pl input (some g) =
      let h = start_handshake fl lib (evidence_from lib.text input.result) in
      if length input.proposal == 0
      then (no_outcome, pl)
      else adjudicate lib g pl input
          (record h { provider = lit "agent-graph"; proposal_hash = lib.digest input.proposal })
          (validate_proposal lib.go lib.text lib.json input.proposal)

  unfoldable pub gate_activity : Library → Plane → GateInput → GateOutcome × Plane
  unfolding gate_with
  gate_activity lib pl input = gate_with lib pl input pl.gate

  unfoldable pub record_grad : Option (Graduation fl) → Str → Bool → Option (Graduation fl)
  record_grad none kind approved = none
  record_grad (some g) kind approved = some (record_outcome fl g kind approved)

  unfoldable pub record_items : Platform → Bool → Plane → List EscalatedItem → Plane
  unfolding record_grad record_cal
  record_items go approved pl [] = pl
  record_items go approved pl (e ∷ es) =
      record_items go approved
        (record pl {
          grad = record_grad pl.grad e.kind approved;
          calibration = record_cal go pl.calibration e.kind e.confidence approved;
        })
        es

  unfoldable pub record_outcome_activity : Platform → Plane → RecordInput → Plane
  unfolding record_items
  record_outcome_activity go pl input = record_items go input.approved pl input.escalated
