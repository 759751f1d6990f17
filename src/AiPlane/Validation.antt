-- ===== src/AiPlane/Validation.antt =====
-- internal/aiplane/contract.go: what the pipeline shows to the model, and the strict decoding of
-- what the model returns. The package encoding/json is the parameter `ProposalCodec`.
pub mod Safe
pub mod Bounds
pub mod Projection
use open_mal_lab.Common.{
  ℕ, zero, suc, ◌+◌, Bool, true, false, not, ◌&&◌, ◌||◌, Str, List, [], ◌∷◌, Option, none, some,
  leb, ltb, ◌==◌, if◌then◌else◌, length,
}
use open_mal_lab.Common.Result.{Result, ok, err, ◌>>=◌, ◌>>◌, guard}
use open_mal_lab.Pipeline.Verdict
use open_mal_lab.Pipeline.Confidence
use open_mal_lab.Pipeline.Types.{Finding, SubmissionResult}
use open_mal_lab.Knowledge.Platform.{Platform}
use open_mal_lab.AiPlane.Calibration.{norm_confidence}
use open_mal_lab.AiPlane.Cleaning.{TextLibrary, clean, citation_token}
use open_mal_lab.AiPlane.Contract.{
  EvidenceItem, Evidence, Citation, Hypothesis, ProposedIoc, Proposal,
}

-- 1 << 20
abbrev pub max_proposal_bytes : ℕ
max_proposal_bytes = 1_048_576

abbrev pub max_summary_len : ℕ
max_summary_len = 8192

abbrev pub max_claim_len : ℕ
max_claim_len = 2048

abbrev pub max_field_len : ℕ
max_field_len = 512

abbrev pub max_detail_len : ℕ
max_detail_len = 8192

abbrev pub max_hypotheses : ℕ
max_hypotheses = 64

abbrev pub max_iocs : ℕ
max_iocs = 256

abbrev pub max_citations : ℕ
max_citations = 32

abbrev pub max_evidence_items : ℕ
max_evidence_items = 2000

unfoldable pub evidence_item : TextLibrary → Finding → EvidenceItem
evidence_item text f = record {
  engine = clean text f.engine max_field_len;
  type = clean text f.type max_field_len;
  detail = clean text f.detail max_detail_len;
  attck = clean text f.attck max_field_len;
  verdict = Verdict.to_string f.verdict;
  confidence = Confidence.to_string f.confidence;
  path = clean text f.path max_detail_len;
}

-- The loop over the findings: at most `room` items, and whether the projection was cut.
unfoldable pub evidence_items : TextLibrary → ℕ → List Finding → List EvidenceItem × Bool
evidence_items text room [] = ([], false)
evidence_items text zero (f ∷ fs) = ([], true)
evidence_items text (suc room) (f ∷ fs) =
    let (items, cut) = evidence_items text room fs in (evidence_item text f ∷ items, cut)

unfoldable pub evidence_from : TextLibrary → SubmissionResult → Evidence
unfolding evidence_items evidence_item
evidence_from text res =
    let (items, cut) = evidence_items text max_evidence_items res.findings in
    record {
      submission_id = res.submission_id;
      sha256 = res.sha256;
      file_type = clean text res.file_type max_field_len;
      verdict = Verdict.to_string res.verdict;
      score = res.score;
      confidence = Confidence.to_string res.confidence;
      incomplete = res.incomplete || cut;
      items = items;
    }

-- `decode` is a strict Decode of one proposal: the proposal and the bytes behind it. `at_eof` tells
-- whether a second Decode of those bytes returns io.EOF.
pub record ProposalCodec : Type 0 where
  pub decode : Str → Option (Proposal × Str)
  pub at_eof : Str → Bool

pub data ProposalError : Type 0 where
  empty_proposal proposal_oversize undecodable trailing_after : ProposalError
  many_hypotheses many_iocs many_citations : ℕ → ProposalError
  missing_kind_or_claim malformed_citation malformed_ioc : ProposalError

abbrev pub or_undecodable : {A : Type 0} → Option A → Result ProposalError A
or_undecodable none = err undecodable
or_undecodable (some a) = ok a

-- func CitationWellFormed; the loop of Validate makes the same three tests
unfoldable pub citation_well_formed : Citation → Bool
citation_well_formed c =
    citation_token c.fact_id max_field_len
    && citation_token c.kind max_field_len
    && citation_token c.key max_field_len

unfoldable pub check_citations : List Citation → Result ProposalError (List Citation)
unfolding citation_well_formed
check_citations [] = ok []
check_citations (c ∷ cs) = do
  guard (citation_well_formed c) malformed_citation
  rest ← check_citations cs
  ok (c ∷ rest)

abbrev pub says_nothing : Proposal → Bool
says_nothing p =
    length p.summary == 0 && length p.hypotheses == 0 && length p.iocs == 0 && not p.needs_review

module _ (go : Platform) (text : TextLibrary) where
  unfoldable pub check_hypothesis : Hypothesis → Result ProposalError Hypothesis
  check_hypothesis h = do
    guard (leb (length h.citations) max_citations) (many_citations (length h.citations))
    let kind = clean text h.kind max_field_len
    let claim = clean text h.claim max_claim_len
    guard (not (length kind == 0 || length claim == 0)) missing_kind_or_claim
    citations ← check_citations h.citations
    ok (record {
      kind = kind;
      claim = claim;
      confidence = norm_confidence go h.confidence;
      citations = citations;
    })

  unfoldable pub check_hypotheses : List Hypothesis → Result ProposalError (List Hypothesis)
  check_hypotheses [] = ok []
  check_hypotheses (h ∷ hs) = do h' ← check_hypothesis h; rest ← check_hypotheses hs; ok (h' ∷ rest)

  unfoldable pub check_ioc : ProposedIoc → Result ProposalError ProposedIoc
  check_ioc i = do
    let t = clean text i.type max_field_len
    let v = clean text i.value max_field_len
    guard (not (length t == 0 || length v == 0)) malformed_ioc
    ok (record { type = t; value = v })

  unfoldable pub check_iocs : List ProposedIoc → Result ProposalError (List ProposedIoc)
  check_iocs [] = ok []
  check_iocs (i ∷ is) = do i' ← check_ioc i; rest ← check_iocs is; ok (i' ∷ rest)

  unfoldable pub check_proposal : Proposal → Result ProposalError Proposal
  check_proposal p = do
    guard (leb (length p.hypotheses) max_hypotheses) (many_hypotheses (length p.hypotheses))
    guard (leb (length p.iocs) max_iocs) (many_iocs (length p.iocs))
    hypotheses ← check_hypotheses p.hypotheses
    iocs ← check_iocs p.iocs
    let out : Proposal = record {
      summary = clean text p.summary max_summary_len;
      hypotheses = hypotheses;
      iocs = iocs;
      needs_review = p.needs_review;
      review_reason = clean text p.review_reason max_summary_len;
    }
    guard (not (says_nothing out)) empty_proposal
    ok out

  unfoldable pub validate_proposal : ProposalCodec → Str → Result ProposalError Proposal
  validate_proposal json raw = do
    guard (not (length raw == 0)) empty_proposal
    guard (leb (length raw) max_proposal_bytes) proposal_oversize
    (p, rest) ← or_undecodable (json.decode raw)
    guard (json.at_eof rest) trailing_after
    check_proposal p
