-- ===== src/AiPlane/Facade.antt =====
-- internal/aiplane/facade.go: the one entrypoint of the AI plane, over all its paths.
pub mod Recorded
use open_mal_lab.Common.{
  ℕ, zero, suc, ◌+◌, Bool, true, false, Str, List, [], ◌∷◌, ◌++◌, Option, none, some, ltb,
  if◌then◌else◌, length, lit,
}
use open_mal_lab.Common.Floats.{Float64}
use open_mal_lab.Common.Result.{Result, ok, err}
use open_mal_lab.Pipeline.Types.{SubmissionResult}
use open_mal_lab.Knowledge.Platform.{Platform}
use open_mal_lab.AiPlane.Cleaning.{TextLibrary}
use open_mal_lab.AiPlane.Contract.{Evidence, Proposal}
use open_mal_lab.AiPlane.Validation.{ProposalCodec, ProposalError, evidence_from, validate_proposal}
use open_mal_lab.AiPlane.Gate.{Gate, GatedHypothesis, GateResult, evaluate}
use open_mal_lab.AiPlane.Gate.Review.{accepted}
use open_mal_lab.AiPlane.Ledger.{Handshake, Ledger, append}

-- The interface Provider; `none` is an error.
pub record Provider : Type 0 where
  pub name : Str
  pub analyze : Evidence → Option Str

pub data EnrichError : Type 0 where
  not_configured : EnrichError
  provider_failed : Str → EnrichError
  invalid_output : ProposalError → EnrichError

-- What the entrypoint takes from Go's library: the two parameters of the ledger, hashJSON of an
-- evidence's JSON, and those of Validate.
pub record Library : Type 0 where
  pub go : Platform
  pub text : TextLibrary
  pub json : ProposalCodec
  pub marshal_handshake : Handshake → Str
  pub marshal_evidence : Evidence → Str
  pub digest : Str → Str

module _ (fl : Float64) where
  -- The zero value of a GateResult.
  abbrev pub no_result : GateResult fl
  no_result = record {
    submission_id = [];
    hypotheses = [];
    leads = [];
    summary = [];
    needs_human = false;
    reasons = [];
  }

  -- The verified citations of all hypotheses, for the handshake.
  unfoldable pub cited_ids : List (GatedHypothesis fl) → List Str
  cited_ids [] = []
  cited_ids (gh ∷ ghs) = gh.verified_citation_ids ++ cited_ids ghs

  -- What Enrich returns, and the ledger behind it; `error` is diagnostic only.
  pub record Enriched : Type 0 where
    pub result : GateResult fl
    pub handshake : Handshake
    pub error : Option EnrichError
    pub ledger : Ledger

  abbrev pub start_handshake : Library → Evidence → Handshake
  start_handshake lib ev = record {
    seq = 0;
    submission_id = ev.submission_id;
    provider = [];
    evidence_hash = lib.digest (lib.marshal_evidence ev);
    proposal_hash = [];
    outcome = [];
    needs_human = false;
    accepted = 0;
    cited_fact_ids = [];
    retrieval_tiers = [];
    prev_hash = [];
    hash = [];
  }

  unfoldable pub finish_with :
      Library → Ledger → Handshake → GateResult fl → Option EnrichError → Enriched
  finish_with lib l h gr e =
      let (sealed, l') = append lib.marshal_handshake lib.digest l h in
      record { result = gr; handshake = sealed; error = e; ledger = l' }

  abbrev pub gated : Handshake → GateResult fl → Handshake
  gated h gr =
      let ids = cited_ids gr.hypotheses in
      record h {
        outcome = lit "gated";
        needs_human = gr.needs_human;
        accepted = accepted fl gr.hypotheses;
        cited_fact_ids = ids;
        retrieval_tiers = if ltb 0 (length ids) then lit "L0" ∷ [] else [];
      }

  unfoldable pub after_validate :
      Library → Gate fl → Evidence → Ledger → Handshake → Result ProposalError Proposal → Enriched
  after_validate lib g ev l h (err e) =
      finish_with lib l (record h { outcome = lit "rejected" }) no_result (some (invalid_output e))
  after_validate lib g ev l h (ok p) =
      let gr = evaluate fl g ev p in finish_with lib l (gated h gr) gr none

  unfoldable pub after_analyze :
      Library → Provider → Gate fl → Evidence → Ledger → Handshake → Option Str → Enriched
  after_analyze lib p g ev l h none =
      finish_with lib l (record h { outcome = lit "provider-error" }) no_result
        (some (provider_failed p.name))
  after_analyze lib p g ev l h (some raw) =
      after_validate lib g ev l (record h { proposal_hash = lib.digest raw })
        (validate_proposal lib.go lib.text lib.json raw)

  unfoldable pub enrich_configured :
      Library → Evidence → Ledger → Handshake → Option Provider → Option (Gate fl) → Enriched
  enrich_configured lib ev l h (some p) (some g) =
      after_analyze lib p g ev l (record h { provider = p.name }) (p.analyze ev)
  enrich_configured lib ev l h (some p) none =
      finish_with lib l (record h { provider = lit "none"; outcome = lit "provider-error" })
        no_result (some not_configured)
  enrich_configured lib ev l h none g =
      finish_with lib l (record h { provider = lit "none"; outcome = lit "provider-error" })
        no_result (some not_configured)

  unfoldable pub enrich :
      Library → Option Provider → Option (Gate fl) → Ledger → SubmissionResult → Enriched
  enrich lib provider gate l res =
      let ev = evidence_from lib.text res in
      enrich_configured lib ev l (start_handshake lib ev) provider gate
