-- ===== src/Orchestrator/Enrichment.antt =====
-- services/mal-orchestrator/enrichment.go: the AI plane as an activity behind the verdict, and the
-- workflow that folds what it returns into the result.
pub mod Caged
use open_mal_lab.Common.{Bool, true, false, Str, List, [], Option, none, some, if◌then◌else◌, lit}
use open_mal_lab.Common.Floats.{Float64}
use open_mal_lab.Pipeline.Types.{Finding, SubmissionResult}
use open_mal_lab.AiPlane.Gate.{Gate, enrichment_findings}
use open_mal_lab.AiPlane.Ledger.{Ledger}
use open_mal_lab.AiPlane.Facade.{Provider, Library, EnrichError, Enriched, enrich}
use open_mal_lab.Orchestrator.Agents.{Delivery, arrives, lost_before, lost_after, fold_enrichment}

pub record AiEnrichment : Type 0 where
  pub enabled : Bool
  pub findings : List Finding
  pub needs_review : Bool
  pub provider : Str
  pub outcome : Str
  pub ledger_head : Str

abbrev pub disabled : AiEnrichment
disabled = record {
  enabled = false;
  findings = [];
  needs_review = false;
  provider = [];
  outcome = lit "disabled";
  ledger_head = [];
}

module _ (fl : Float64) where
  -- type AIPlane struct
  pub record AiPlane : Type 0 where
    pub provider : Option Provider
    pub gate : Option (Gate fl)
    pub ledger : Ledger

  -- The enrichment of a call of Enrich, whose error leaves it without findings.
  unfoldable pub enrichment_of : Enriched fl → Option EnrichError → AiEnrichment
  enrichment_of e (some x) = record {
    enabled = true;
    findings = [];
    needs_review = false;
    provider = e.handshake.provider;
    outcome = e.handshake.outcome;
    ledger_head = e.handshake.hash;
  }
  enrichment_of e none = record {
    enabled = true;
    findings = enrichment_findings fl e.result;
    needs_review = e.result.needs_human;
    provider = e.handshake.provider;
    outcome = e.handshake.outcome;
    ledger_head = e.handshake.hash;
  }

  unfoldable pub enrich_with_ai_activity :
      Library → Option AiPlane → SubmissionResult → AiEnrichment × Option AiPlane
  unfolding enrichment_of
  enrich_with_ai_activity lib none res = (disabled, none)
  enrich_with_ai_activity lib (some a) res =
      let e = enrich fl lib a.provider a.gate a.ledger res in
      (enrichment_of e e.error, some (record a { ledger = e.ledger }))

  unfoldable pub apply_enrichment : SubmissionResult → AiEnrichment → SubmissionResult
  unfolding fold_enrichment
  apply_enrichment res enr =
      let folded = fold_enrichment res enr.findings in
      if enr.needs_review then record folded { needs_review = true } else folded

  -- The workflow, over the delivery of its activity.
  unfoldable pub enrichment_workflow :
      Library → Delivery → Option AiPlane → SubmissionResult → SubmissionResult × Option AiPlane
  unfolding apply_enrichment enrich_with_ai_activity
  enrichment_workflow lib arrives a res =
      let (enr, a') = enrich_with_ai_activity lib a res in (apply_enrichment res enr, a')
  enrichment_workflow lib lost_before a res = (res, a)
  enrichment_workflow lib lost_after a res = (res, (enrich_with_ai_activity lib a res).1)
