-- ===== src/AiPlane/Facade/Recorded.antt =====
-- internal/aiplane/facade.go: what the paths of Enrich leave in the ledger and return.
use open_mal_lab.Common.{
  ◌≡◌, refl, sym, ◌⊎◌, inl, inr, Str, [], ◌∷◌, ◌++◌, Option, none, some, length,
}
use open_mal_lab.Common.Floats.{Float64}
use open_mal_lab.Common.Result.{Result, ok, err}
use open_mal_lab.Pipeline.Types.{SubmissionResult}
use open_mal_lab.AiPlane.Contract.{Evidence, Proposal}
use open_mal_lab.AiPlane.Validation.{ProposalError, evidence_from}
use open_mal_lab.AiPlane.Gate.{Gate, GateResult, evaluate, enrichment_findings, findings_of}
use open_mal_lab.AiPlane.Gate.Review.{findings_of_lem}
use open_mal_lab.AiPlane.Ledger.{Handshake, Ledger, append, seal, verify}
use open_mal_lab.AiPlane.Ledger.Tamper.{append-verify}
use open_mal_lab.AiPlane.Facade.{
  Provider, EnrichError, Library, no_result, Enriched, start_handshake, finish_with, after_validate,
  after_analyze, enrich_configured, enrich,
}

module _ (fl : Float64) (lib : Library) where
  -- The ledger still verifies and ends with the returned handshake, whose count of accepted
  -- hypotheses is that of the findings; and a diagnostic error comes with no findings.
  pub record IsRecorded (l : Ledger) (out : Enriched fl) : Type 0 where
    pub verified : verify lib.marshal_handshake lib.digest out.ledger ≡ ok tt
    pub appended : out.ledger.entries ≡ l.entries ++ (out.handshake ∷ [])
    pub counted : out.handshake.accepted ≡ length (enrichment_findings fl out.result)
    pub silent : (out.error ≡ none) ⊎ (enrichment_findings fl out.result ≡ [])

  finish_with-IsRecorded :
      (l : Ledger) (h : Handshake) (gr : GateResult fl) (e : Option EnrichError)
      → verify lib.marshal_handshake lib.digest l ≡ ok tt
      → h.accepted ≡ length (enrichment_findings fl gr)
      → (e ≡ none) ⊎ (enrichment_findings fl gr ≡ [])
      → IsRecorded l (finish_with fl lib l h gr e)
  unfolding finish_with
  finish_with-IsRecorded l h gr e v c s =
      let kept = append-verify lib.marshal_handshake lib.digest l h v in
      record { verified = kept.0; appended = kept.1; counted = unfold append seal in c; silent = s }

  no_findings : enrichment_findings fl (no_result fl) ≡ []
  unfolding enrichment_findings findings_of
  no_findings = refl

  failed-IsRecorded :
      (l : Ledger) (h : Handshake) (e : Option EnrichError)
      → verify lib.marshal_handshake lib.digest l ≡ ok tt
      → h.accepted ≡ 0
      → IsRecorded l (finish_with fl lib l h (no_result fl) e)
  failed-IsRecorded l h e v z =
      finish_with-IsRecorded l h (no_result fl) e v (rw no_findings z) (inr no_findings)

  after_validate-IsRecorded :
      (g : Gate fl) (ev : Evidence) (l : Ledger) (h : Handshake) (r : Result ProposalError Proposal)
      → verify lib.marshal_handshake lib.digest l ≡ ok tt
      → h.accepted ≡ 0
      → IsRecorded l (after_validate fl lib g ev l h r)
  unfolding after_validate
  after_validate-IsRecorded g ev l h (err e) v z = failed-IsRecorded l _ _ v z
  after_validate-IsRecorded g ev l h (ok p) v z =
      finish_with-IsRecorded l _ _ none v
        (unfold enrichment_findings in sym (findings_of_lem fl (evaluate fl g ev p).hypotheses).0)
        (inl refl)

  after_analyze-IsRecorded :
      (p : Provider) (g : Gate fl) (ev : Evidence) (l : Ledger) (h : Handshake) (raw : Option Str)
      → verify lib.marshal_handshake lib.digest l ≡ ok tt
      → h.accepted ≡ 0
      → IsRecorded l (after_analyze fl lib p g ev l h raw)
  unfolding after_analyze
  after_analyze-IsRecorded p g ev l h none v z = failed-IsRecorded l _ _ v z
  after_analyze-IsRecorded p g ev l h (some raw) v z = after_validate-IsRecorded g ev l _ _ v z

  configured-IsRecorded :
      (ev : Evidence) (l : Ledger) (h : Handshake) (provider : Option Provider)
      (gate : Option (Gate fl))
      → verify lib.marshal_handshake lib.digest l ≡ ok tt
      → h.accepted ≡ 0
      → IsRecorded l (enrich_configured fl lib ev l h provider gate)
  unfolding enrich_configured
  configured-IsRecorded ev l h none gate v z = failed-IsRecorded l _ _ v z
  configured-IsRecorded ev l h (some p) none v z = failed-IsRecorded l _ _ v z
  configured-IsRecorded ev l h (some p) (some g) v z = after_analyze-IsRecorded p g ev l _ _ v z

  -- Whatever the provider does and the model returns, with a ledger that verifies Enrich returns,
  -- with the ledger one entry longer and verifying still: its last entry is the returned handshake,
  -- which counts as accepted as many hypotheses as there are findings; and where Enrich reports an
  -- error, there are no findings.
  pub enrich-IsRecorded :
      (provider : Option Provider) (gate : Option (Gate fl)) (l : Ledger) (res : SubmissionResult)
      → verify lib.marshal_handshake lib.digest l ≡ ok tt
      → IsRecorded l (enrich fl lib provider gate l res)
  unfolding enrich
  enrich-IsRecorded provider gate l res v =
      configured-IsRecorded (evidence_from lib.text res) l
        (start_handshake fl lib (evidence_from lib.text res)) provider gate v refl
