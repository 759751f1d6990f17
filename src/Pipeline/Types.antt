-- ===== src/Pipeline/Types.antt =====
-- internal/pipeline/types.go: the records that the services exchange.
use open_mal_lab.Common.{ℕ, Bool, Str, List}
use open_mal_lab.Pipeline.Verdict.{Verdict}
use open_mal_lab.Pipeline.Confidence.{Confidence}

pub record SubmissionInput : Type 0 where
  pub submission_id : Str
  pub domain_id : Str
  pub sha256 : Str
  pub scratch_path : Str
  pub filename : Str
  pub detonate : Bool

pub record Finding : Type 0 where
  pub engine : Str
  pub type : Str
  pub detail : Str
  pub attck : Str
  pub verdict : Verdict
  pub confidence : Confidence
  pub path : Str

pub record Child : Type 0 where
  pub sha256 : Str
  pub size : ℕ
  pub name : Str

-- `ingested_bytes` is an int64 in the source; an engine never reports a negative count.
pub record EngineReport : Type 0 where
  pub engine : Str
  pub findings : List Finding
  pub children : List Child
  pub verdict : Verdict
  pub incomplete : Bool
  pub ingested_bytes : ℕ

pub record SubmissionResult : Type 0 where
  pub submission_id : Str
  pub sha256 : Str
  pub filename : Str
  pub file_type : Str
  pub verdict : Verdict
  pub score : ℕ
  pub confidence : Confidence
  pub findings : List Finding
  pub incomplete : Bool
  pub needs_review : Bool
