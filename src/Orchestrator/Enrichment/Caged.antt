-- ===== src/Orchestrator/Enrichment/Caged.antt =====
-- services/mal-orchestrator/enrichment.go: what the enrichment makes of a result and of the ledger.
use open_mal_lab.Common.{◌≡◌, ap, true, false, Option, none, some, All, Bool-cases, inl, inr}
use open_mal_lab.Common.Floats.{Float64}
use open_mal_lab.Common.Result.{ok}
use open_mal_lab.Pipeline.Types.{SubmissionResult}
use open_mal_lab.AiPlane.Gate.{GateResult, enrichment_findings}
use open_mal_lab.AiPlane.Gate.Review.{IsCapped, findings_of_lem}
use open_mal_lab.AiPlane.Ledger.{verify}
use open_mal_lab.AiPlane.Facade.{Library, EnrichError, Enriched, enrich}
use open_mal_lab.AiPlane.Facade.Recorded.{enrich-IsRecorded}
use open_mal_lab.Orchestrator.Agents.{Delivery, arrives, lost_before, lost_after}
use open_mal_lab.Orchestrator.Agents.Raised.{Raises, fold_lem, same-Raises}
use open_mal_lab.Orchestrator.Enrichment.{
  AiEnrichment, AiPlane, enrichment_of, enrich_with_ai_activity, apply_enrichment,
  enrichment_workflow,
}

module _ (fl : Float64) where
  -- The ledger of the plane, if there is one, verifies.
  abbrev pub HasLedger : Library → Option (AiPlane fl) → Type 0
  HasLedger lib none = Unit
  HasLedger lib (some a) = verify lib.marshal_handshake lib.digest a.ledger ≡ ok tt

  findings-IsCapped : (gr : GateResult fl) → All (IsCapped fl) (enrichment_findings fl gr)
  unfolding enrichment_findings
  findings-IsCapped gr = (findings_of_lem fl gr.hypotheses).1

  enrichment_of-IsCapped :
      (e : Enriched fl) (o : Option EnrichError) → All (IsCapped fl) (enrichment_of fl e o).findings
  unfolding enrichment_of
  enrichment_of-IsCapped e none = findings-IsCapped e.result
  enrichment_of-IsCapped e (some x) = tt

  apply-Raises :
      (res : SubmissionResult) (enr : AiEnrichment)
      → All (IsCapped fl) enr.findings
      → Raises fl res (apply_enrichment fl res enr)
  unfolding apply_enrichment
  apply-Raises res enr h = elim (Bool-cases enr.needs_review) [
    | inl asked ↦ rw asked (
      enr.findings,
      true,
      h,
      ap (λ (r : SubmissionResult). record r { needs_review = true })
          (fold_lem fl res enr.findings h),
    )
    | inr quiet ↦ rw quiet (enr.findings, false, h, fold_lem fl res enr.findings h)
  ]

  activity_lem :
      (lib : Library) (a : Option (AiPlane fl)) (res : SubmissionResult)
      → HasLedger lib a
      → All (IsCapped fl) (enrich_with_ai_activity fl lib a res).0.findings
        × HasLedger lib (enrich_with_ai_activity fl lib a res).1
  unfolding enrich_with_ai_activity
  activity_lem lib none res h = (tt, tt)
  activity_lem lib (some a) res h =
      let e = enrich fl lib a.provider a.gate a.ledger res in
      (
        enrichment_of-IsCapped e e.error,
        (enrich-IsRecorded fl lib a.provider a.gate a.ledger res h).verified,
      )

-- Whatever the model answers, and if the activity is lost before or after it took effect, the enrichment workflow returns the old result with findings of
-- engine mal-ai behind the old findings, each SUSPICIOUS with LOW confidence, with its verdict joined with SUSPICIOUS if there are any, with the flag of review possibly set,
-- and with nothing else changed; and a ledger that verified before verifies after the run.
pub enrichment_workflow-Raises :
    (fl : Float64) (lib : Library) (d : Delivery) (a : Option (AiPlane fl)) (res : SubmissionResult)
    → HasLedger fl lib a
    → Raises fl res (enrichment_workflow fl lib d a res).0
      × HasLedger fl lib (enrichment_workflow fl lib d a res).1
unfolding enrichment_workflow
enrichment_workflow-Raises fl lib arrives a res h =
    let done = activity_lem fl lib a res h in
    (apply-Raises fl res (enrich_with_ai_activity fl lib a res).0 done.0, done.1)
enrichment_workflow-Raises fl lib lost_before a res h = (same-Raises fl res, h)
enrichment_workflow-Raises fl lib lost_after a res h =
    (same-Raises fl res, (activity_lem fl lib a res h).1)
