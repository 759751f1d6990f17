-- ===== src/Orchestrator/Agents.antt =====
-- services/mal-orchestrator/agentgraph.go and hitl.go: the workflow that folds the enrichment in and
-- waits for the review.
pub mod Raised
pub mod Approved
use open_mal_lab.Common.{
  Bool, true, false, not, ◌||◌, Str, List, [], ◌∷◌, ◌++◌, map, Option, none, some, ◌==◌,
  if◌then◌else◌, length, lit,
}
use open_mal_lab.Common.Floats.{Float64}
use open_mal_lab.Pipeline.Verdict.{join}
use open_mal_lab.Pipeline.Types.{Finding, SubmissionResult}
use open_mal_lab.AiPlane.Gate.{SubmissionReason, GateSignals}
use open_mal_lab.AiPlane.Facade.{Library}
use open_mal_lab.Orchestrator.Learning.{ingest_learning_activity}
use open_mal_lab.Orchestrator.Adjudication.{
  EscalatedItem, GateOutcome, Plane, gate_activity, record_outcome_activity,
}

-- What the analyst's console reads of a pending review.
pub record ReviewRequest : Type 0 where
  pub submission_id : Str
  pub question : Str
  pub kinds : List Str
  pub reasons : List SubmissionReason

pub record ReviewDecision : Type 0 where
  pub approved : Bool
  pub note : Str

-- What becomes of a dispatched activity: its result arrives, or it is lost before or after the
-- activity took effect, and the workflow sees an error.
pub data Delivery : Type 0 where
  arrives lost_before lost_after : Delivery

abbrev pub takes_effect : Delivery → Bool
takes_effect arrives = true
takes_effect lost_after = true
takes_effect lost_before = false

-- The loop over the gate's findings.
unfoldable pub fold_enrichment : SubmissionResult → List Finding → SubmissionResult
fold_enrichment res [] = res
fold_enrichment res (f ∷ fs) =
    fold_enrichment
      (record res { verdict = join res.verdict f.verdict; findings = res.findings ++ f ∷ [] }) fs

unfoldable pub review_of : SubmissionResult → GateOutcome → ReviewRequest
unfolding lit
review_of res gate = record {
  submission_id = res.submission_id;
  question = lit "Review the AI-escalated findings for this submission.";
  kinds = map (λ (e : EscalatedItem). e.kind) gate.escalated;
  reasons = gate.reasons;
}

module _ (fl : Float64) where
  pub record RosterOutcome : Type 0 where
    pub configured : Bool
    pub proposal_json : Str
    pub signals : List (GateSignals fl)
    pub retrieval_tiers : List Str

  -- The outcomes that the platform and the analyst decide: the roster's answer, `none` for an error;
  -- the deliveries of the other activities; and the decision, `none` for a timeout.
  pub record Events : Type 0 where
    pub roster : Option RosterOutcome
    pub gate : Delivery
    pub decision : Option ReviewDecision
    pub record_run : Delivery
    pub curate_run : Delivery
    pub observe_run : Delivery

  -- A dispatch of IngestLearningActivity, whose error is not read.
  unfoldable pub learn : Library → Delivery → Bool → SubmissionResult → Plane fl → Plane fl
  learn lib d confirmed res pl =
      if takes_effect d
      then record pl {
        graph =
            (ingest_learning_activity lib.go pl.graph
              (record { result = res; confirmed = confirmed })).1;
      }
      else pl

  unfoldable pub after_decision :
      Library
      → Events
      → GateOutcome
      → SubmissionResult
      → Plane fl
      → Option ReviewDecision
      → Plane fl
  unfolding learn record_outcome_activity
  after_decision lib ev gate res pl none = pl
  after_decision lib ev gate res pl (some d) =
      let pl1 =
        if takes_effect ev.record_run
        then record_outcome_activity fl lib.go pl
            (record { escalated = gate.escalated; approved = d.approved })
        else pl in
      if d.approved then learn lib ev.curate_run true res pl1 else pl1

  -- The result, the plane, and the review that was raised.
  abbrev Finished : Type 0
  Finished = SubmissionResult × Plane fl × Option ReviewRequest

  unfoldable pub after_gate :
      Library → Events → SubmissionResult → Plane fl → GateOutcome → Finished
  unfolding after_decision fold_enrichment review_of
  after_gate lib ev res pl gate =
      let folded = fold_enrichment res gate.findings in
      let reviewed = record folded { needs_review = true } in
      if gate.needs_review
      then (
        reviewed,
        learn lib ev.observe_run false reviewed
            (after_decision lib ev gate reviewed pl ev.decision),
        some (review_of reviewed gate),
      )
      else (folded, learn lib ev.observe_run false folded pl, none)

  unfoldable pub after_roster :
      Library → Events → SubmissionResult → Plane fl → Option RosterOutcome → Finished
  unfolding after_gate gate_activity
  after_roster lib ev res pl none = (res, pl, none)
  after_roster lib ev res pl (some roster) =
      let (gate, pl') = gate_activity fl lib pl (record {
        result = res;
        proposal = roster.proposal_json;
        signals = roster.signals;
        retrieval_tiers = roster.retrieval_tiers;
      }) in
      if not roster.configured || length roster.proposal_json == 0
      then (res, pl, none)
      else elim ev.gate [
        | lost_before ↦ (res, pl, none)
        | lost_after ↦ (res, pl', none)
        | arrives ↦ after_gate lib ev res pl' gate
      ]

  unfoldable pub agent_graph_workflow : Library → Events → SubmissionResult → Plane fl → Finished
  unfolding after_roster
  agent_graph_workflow lib ev res pl = after_roster lib ev res pl ev.roster
