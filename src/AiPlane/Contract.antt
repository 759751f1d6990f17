-- ===== src/AiPlane/Contract.antt =====
-- internal/aiplane/contract.go: the evidence the model reasons over and the proposal it returns.
use open_mal_lab.Common.{ℕ, Bool, Str, List}

pub record EvidenceItem : Type 0 where
  pub engine : Str
  pub type : Str
  pub detail : Str
  pub attck : Str
  pub verdict : Str
  pub confidence : Str
  pub path : Str

pub record Evidence : Type 0 where
  pub submission_id : Str
  pub sha256 : Str
  pub file_type : Str
  pub verdict : Str
  pub score : ℕ
  pub confidence : Str
  pub incomplete : Bool
  pub items : List EvidenceItem

pub record Citation : Type 0 where
  pub fact_id : Str
  pub kind : Str
  pub key : Str

pub record Hypothesis : Type 0 where
  pub kind : Str
  pub claim : Str
  pub confidence : Str
  pub citations : List Citation

pub record ProposedIoc : Type 0 where
  pub type : Str
  pub value : Str

pub record Proposal : Type 0 where
  pub summary : Str
  pub hypotheses : List Hypothesis
  pub iocs : List ProposedIoc
  pub needs_review : Bool
  pub review_reason : Str
