-- ===== src/Tests/Enrichment.antt =====
-- The theorems on the proposals of the model and on the entrypoint of the AI plane, at concrete inputs.
use open_mal_lab.Common.{
  ℕ, ◌≤◌, ◌<◌, ◌≡◌, refl, Bool, true, false, Str, [], ◌∷◌, Option, none, some, lit, str_eq, length,
}
use open_mal_lab.Common.Result.{ok}
use open_mal_lab.AiPlane.Contract.{Proposal}
use open_mal_lab.AiPlane.Calibration.{norm_confidence}
use open_mal_lab.AiPlane.Cleaning.{TextLibrary, clean, defang, citation_token}
use open_mal_lab.Common.Utf8.{runes, encode, valid_string, has_control}
use open_mal_lab.Pipeline.Types.{SubmissionResult}
use open_mal_lab.Pipeline.Verdict.{suspicious}
use open_mal_lab.Pipeline.Confidence.{low}
use open_mal_lab.AiPlane.Validation.{
  max_proposal_bytes, max_evidence_items, ProposalCodec, evidence_from, check_citations,
  check_hypothesis, check_hypotheses, check_iocs, check_proposal, validate_proposal,
}
use open_mal_lab.AiPlane.Validation.Bounds.{IsFaithful, validate_proposal-IsSafe}
use open_mal_lab.AiPlane.Validation.Projection.{evidence_from-bounded}
use open_mal_lab.AiPlane.Facade.{Provider, Library, enrich}
use open_mal_lab.AiPlane.Facade.Recorded.{IsRecorded, enrich-IsRecorded}
use open_mal_lab.Tests.Samples.{platform}
use open_mal_lab.Tests.Floats.{fractions}
use open_mal_lab.Tests.AiPlane.{gate, ledger, json, digest, ledger_verified}

-- No rune is dropped for its class, and nothing matches a pattern.
abbrev plain : TextLibrary
plain = record {
  format_char = λ r. false;
  variation_selector = λ r. false;
  default_ignorable = λ r. false;
  nonspacing_mark = λ r. false;
  enclosing_mark = λ r. false;
  replace_all = λ pattern replacement s. s;
}

abbrev small : Proposal
small = record {
  summary = lit "ok";
  hypotheses =
      record {
        kind = lit "k";
        claim = lit "c";
        confidence = lit "HIGH";
        citations = record { fact_id = lit "f"; kind = lit "k"; key = lit "u://h" } ∷ [];
      }
      ∷ [];
  iocs = [];
  needs_review = false;
  review_reason = [];
}

abbrev first_byte : Str → Option (Proposal × Str)
first_byte [] = none
first_byte (b ∷ s) = some (small, s)

abbrev nothing_left : Str → Bool
nothing_left [] = true
nothing_left (b ∷ s) = false

abbrev codec : ProposalCodec
codec = record { decode = first_byte; at_eof = nothing_left }

valid : validate_proposal platform plain codec (b'{' ∷ []) ≡ ok small
unfolding validate_proposal check_proposal check_hypotheses check_hypothesis check_citations
    check_iocs clean citation_token norm_confidence valid_string has_control str_eq lit runes encode
    defang
valid = refl

validate_proposal-IsSafe_example :
    (length {A = ℕ} (b'{' ∷ []) ≤ max_proposal_bytes)
    × (p : Proposal) × (rest : Str) × (codec.decode (b'{' ∷ []) ≡ some (p, rest))
    × (codec.at_eof rest ≡ true)
    × IsFaithful platform plain p small
validate_proposal-IsSafe_example =
    validate_proposal-IsSafe platform plain codec (b'{' ∷ []) small valid

abbrev pub result : SubmissionResult
result = record {
  submission_id = lit "s1";
  sha256 = lit "aa";
  filename = lit "a";
  file_type = lit "pebin";
  verdict = suspicious;
  score = 16;
  confidence = low;
  findings = [];
  incomplete = true;
  needs_review = false;
}

evidence_from-bounded_example :
    (length (evidence_from plain result).items ≤ max_evidence_items)
    × (result.incomplete ≡ true → (evidence_from plain result).incomplete ≡ true)
    × (max_evidence_items < length result.findings → (evidence_from plain result).incomplete ≡ true)
    × ((evidence_from plain result).incomplete ≡ false
        → length (evidence_from plain result).items ≡ length result.findings)
evidence_from-bounded_example = evidence_from-bounded plain result

abbrev pub library : Library
library = record {
  go = platform;
  text = plain;
  json = codec;
  marshal_handshake = json;
  marshal_evidence = λ ev. ev.submission_id;
  digest = digest;
}

abbrev pub provider : Provider
provider = record { name = lit "mock"; analyze = λ ev. some (b'{' ∷ []) }

enrich-IsRecorded_example :
    IsRecorded fractions library ledger
      (enrich fractions library (some provider) (some gate) ledger result)
enrich-IsRecorded_example =
    enrich-IsRecorded fractions library (some provider) (some gate) ledger result ledger_verified
