-- ===== src/Orchestrator/Workflow.antt =====
-- services/mal-orchestrator/workflow.go: the walk over the tree of artifacts.
use open_mal_lab.Common.{
  ℕ, ◌+◌, Bool, true, false, Str, List, [], ◌∷◌, ◌++◌, Option, none, some, ltb, if◌then◌else◌,
  length, lit,
}
use open_mal_lab.Pipeline.Verdict.{Verdict, benign, suspicious, join}
use open_mal_lab.Pipeline.Confidence.{low}
use open_mal_lab.Pipeline.Types.{Finding, EngineReport, SubmissionResult}

abbrev pub max_depth : ℕ
max_depth = 8

abbrev pub max_artifacts : ℕ
max_artifacts = 200

-- 1 << 20
abbrev pub max_findings_bytes : ℕ
max_findings_bytes = 1_048_576

-- 2 << 30
abbrev pub max_submission_ingest_bytes : ℕ
max_submission_ingest_bytes = 2_147_483_648

pub record WorkItem : Type 0 where
  pub sha256 : Str
  pub path : Str
  pub depth : ℕ

-- The activities that the workflow dispatches.
pub data Engine : Type 0 where
  ident yara capa die floss detonate extract : Engine

-- The local variables of `SubmissionWorkflow`.
pub record Run : Type 0 where
  pub res : SubmissionResult
  pub findings_bytes : ℕ
  pub findings_capped : Bool
  pub queue : List WorkItem
  pub processed : ℕ
  pub depth_capped : Bool
  pub submission_ingested : ℕ
  pub ingest_capped : Bool

-- pipeline.EngineReport{}; the zero verdict is BENIGN
abbrev pub empty_report : EngineReport
empty_report = record {
  engine = [];
  findings = [];
  children = [];
  verdict = benign;
  incomplete = false;
  ingested_bytes = 0;
}

-- res.Findings = append(res.Findings, f)
abbrev pub append_finding : Finding → Run → Run
append_finding f r = record r { res = record r.res { findings = r.res.findings ++ f ∷ [] } }

-- res.Verdict = pipeline.Max(res.Verdict, v)
abbrev pub lift : Verdict → Run → Run
lift v r = record r { res = record r.res { verdict = join r.res.verdict v } }

-- res.Verdict = pipeline.Max(res.Verdict, pipeline.Suspicious); res.Incomplete = true
abbrev pub floor : Run → Run
floor r = let r' = lift suspicious r in record r' { res = record r'.res { incomplete = true } }

-- A finding of the workflow's own, with no ATT&CK technique.
abbrev pub note : Str → Str → Str → Verdict → Str → Finding
note engine type detail verdict path = record {
  engine = engine;
  type = type;
  detail = detail;
  attck = [];
  verdict = verdict;
  confidence = low;
  path = path;
}

unfoldable pub orchestrator : Str
orchestrator = lit "mal-orchestrator"

error_finding : Str → Str → Finding
error_finding engine path =
    note engine (lit "error") (lit "engine did not complete; verdict floored") suspicious path

findings_cap : Finding
unfolding orchestrator
findings_cap =
    note orchestrator (lit "findings-cap")
      (lit
        "per-submission finding-size cap reached; further findings omitted (the verdict still reflects them)")
      suspicious []

-- The serialized size that the budget counts for a finding.
unfoldable pub finding_size : Str → Finding → ℕ
finding_size path f =
    length f.detail + length path + length f.type + length f.attck + length f.engine + 128

-- The body of the loop over `rep.Findings`.
unfoldable pub fold_finding : Str → Run → Finding → Run
unfolding finding_size findings_cap
fold_finding path r f =
    let r1 = lift f.verdict r in
    let sz = finding_size path f in
    if ltb max_findings_bytes (r1.findings_bytes + sz)
    then (if r1.findings_capped
        then r1
        else append_finding findings_cap (floor (record r1 { findings_capped = true })))
    else (let r2 = append_finding (record f { path = path }) r1 in
        record r2 { findings_bytes = r2.findings_bytes + sz })

unfoldable pub fold_findings : Str → Run → List Finding → Run
unfolding fold_finding
fold_findings path r [] = r
fold_findings path r (f ∷ fs) = fold_findings path (fold_finding path r f) fs

-- The closure `fold`; `none` is a future that failed.
unfoldable pub fold : Str → Str → Option EngineReport → Run → Run × EngineReport × Bool
unfolding fold_findings error_finding
fold path engine none r =
    (append_finding (error_finding engine path) (floor r), empty_report, false)
fold path engine (some rep) r =
    let r1 = lift rep.verdict (fold_findings path r rep.findings) in
    (if rep.incomplete then floor r1 else r1, rep, true)
