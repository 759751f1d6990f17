-- ===== src/Orchestrator/Walk.antt =====
-- services/mal-orchestrator/workflow.go: one artifact of the walk, the loop over the queue, and the
-- result.
use open_mal_lab.Common.{
  ℕ, zero, suc, ◌+◌, Bool, true, false, ◌&&◌, Str, List, [], ◌∷◌, ◌++◌, Option, none, some, ltb,
  leb, ◌==◌, if◌then◌else◌, lit,
}
use open_mal_lab.Pipeline.Verdict.{unknown, suspicious}
use open_mal_lab.Pipeline.Confidence.{low}
use open_mal_lab.Pipeline.Types.{SubmissionInput, Finding, Child, EngineReport, SubmissionResult}
use open_mal_lab.Pipeline.Score.{score_findings}
use open_mal_lab.Orchestrator.Crumb.{crumb}
use open_mal_lab.Orchestrator.Workflow.{
  max_depth, max_artifacts, max_submission_ingest_bytes, WorkItem, Engine, ident, yara, capa, die,
  floss, detonate, extract, Run, append_finding, floor, note, orchestrator, fold,
}
use open_mal_lab.Orchestrator.Gates.{file_type_of, is_executable, is_pe, is_elf}

unfoldable pub artifact_finding : WorkItem → Finding
unfolding orchestrator
artifact_finding item =
    note orchestrator (lit "artifact-sha256") (lit "sha256=" ++ item.sha256) unknown item.path

unfoldable pub count_cap : Finding
unfolding orchestrator
count_cap =
    note orchestrator (lit "recursion-cap")
      (lit "artifact-count cap reached; deeper children not analyzed") suspicious []

depth_cap : Str → Finding
unfolding orchestrator
depth_cap path =
    note orchestrator (lit "recursion-cap")
      (lit "archive nesting exceeded the depth cap; deeper children were not analyzed") suspicious
      path

ingest_cap : Str → Finding
unfolding orchestrator
ingest_cap path =
    note orchestrator (lit "ingest-cap")
      (lit "per-submission extracted-bytes budget reached; further extraction was halted")
      suspicious path

-- One child of an extraction: it joins the queue, or the depth cap is reported, once.
unfoldable pub enqueue_child : WorkItem → Run → Child → Run
unfolding depth_cap
enqueue_child item r c =
    if leb (item.depth + 1) max_depth
    then (record r {
      queue =
          r.queue
          ++ record { sha256 = c.sha256; path = crumb item.path c.name; depth = item.depth + 1 }
            ∷ [];
    })
    else if r.depth_capped
    then r
    else append_finding (depth_cap item.path) (floor (record r { depth_capped = true }))

unfoldable pub enqueue_children : WorkItem → Run → List Child → Run
unfolding enqueue_child
enqueue_children item r [] = r
enqueue_children item r (c ∷ cs) = enqueue_children item (enqueue_child item r c) cs

-- What follows the fold of the extraction: the ingest budget, and the children.
unfoldable pub absorb : WorkItem → Run × EngineReport × Bool → Run
unfolding enqueue_children ingest_cap
absorb item (r, rep, false) = r
absorb item (r, rep, true) =
    let r1 = record r { submission_ingested = r.submission_ingested + rep.ingested_bytes } in
    if ltb max_submission_ingest_bytes r1.submission_ingested
    then (if r1.ingest_capped
        then r1
        else append_finding (ingest_cap item.path) (floor (record r1 { ingest_capped = true })))
    else enqueue_children item r1 rep.children

-- The outcome of an activity on the n-th artifact; `none` is an error after the retries. What an
-- engine reports is the environment's.
abbrev pub Activities : Type 0
Activities = Engine → ℕ → SubmissionInput → Option EngineReport

module _ (run : Activities) (input : SubmissionInput) where
  abbrev pub artifact : WorkItem → SubmissionInput
  artifact item = record {
    submission_id = input.submission_id;
    domain_id = input.domain_id;
    sha256 = item.sha256;
    scratch_path = [];
    filename = [];
    detonate = false;
  }

  -- fold(item.Path, name, workflow.ExecuteActivity(ctx, e, artifact))
  unfoldable pub dispatch : Engine → Str → WorkItem → Run → Run × EngineReport × Bool
  dispatch e name item r = fold item.path name (run e r.processed (artifact item)) r

  unfoldable pub scan_executable : WorkItem → EngineReport → Run → Run
  scan_executable item rep r =
      if is_executable rep
      then (dispatch die (lit "mal-static-die") item (dispatch capa (lit "mal-capa") item r).0).0
      else r

  unfoldable pub scan_pe : WorkItem → EngineReport → Run → Run
  scan_pe item rep r = if is_pe rep then (dispatch floss (lit "mal-floss") item r).0 else r

  unfoldable pub scan_elf : WorkItem → EngineReport → Run → Run
  scan_elf item rep r =
      if input.detonate && item.depth == 0 && is_elf rep
      then (dispatch detonate (lit "mal-detonate") item r).0
      else r

  unfoldable pub unpack : WorkItem → Run → Run
  unpack item r =
      if r.ingest_capped then r else absorb item (dispatch extract (lit "mal-extract") item r)

  unfoldable pub set_file_type : WorkItem → EngineReport → Run → Run
  set_file_type item rep r =
      if item.depth == 0
      then record r { res = record r.res { file_type = file_type_of rep } }
      else r

  -- The body of the loop, from the artifact's hash to its children.
  unfoldable pub analyze : WorkItem → Run → Run
  analyze item r =
      let r1 = if ltb 0 item.depth then append_finding (artifact_finding item) r else r in
      let first = dispatch ident (lit "mal-ident") item r1 in
      let r2 = (dispatch yara (lit "mal-static-yara") item first.0).0 in
      let r3 = set_file_type item first.1 r2 in
      unpack item (scan_elf item first.1 (scan_pe item first.1 (scan_executable item first.1 r3)))

  -- `for len(queue) > 0`; the fuel bounds the rounds, and `none` means that it ran out.
  unfoldable pub walk : ℕ → Run → List WorkItem → Option Run
  walk fuel r [] = some r
  walk zero r (item ∷ rest) = none
  walk (suc fuel) r (item ∷ rest) =
      let r' = analyze item (record r { queue = rest; processed = r.processed + 1 }) in
      let next = walk fuel r' r'.queue in
      if leb max_artifacts r.processed then some (append_finding count_cap (floor r)) else next

  unfoldable pub start : Run
  start = record {
    res = record {
      submission_id = input.submission_id;
      sha256 = input.sha256;
      filename = input.filename;
      file_type = [];
      verdict = unknown;
      score = 0;
      confidence = low;
      findings = [];
      incomplete = false;
      needs_review = false;
    };
    findings_bytes = 0;
    findings_capped = false;
    queue = record { sha256 = input.sha256; path = []; depth = 0 } ∷ [];
    processed = 0;
    depth_capped = false;
    submission_ingested = 0;
    ingest_capped = false;
  }

  unfoldable pub finish : Run → SubmissionResult
  finish r =
      let (score, confidence) = score_findings r.res.findings in
      record r.res { score = score; confidence = confidence }

  -- The first result is what the workflow returns; the second is what the AI plane's child
  -- workflow is started with, when it is enabled.
  unfoldable pub submission_workflow : Bool → Option (SubmissionResult × Option SubmissionResult)
  submission_workflow ai_enabled = elim (walk (max_artifacts + 1) start start.queue) [
    | none ↦ none
    | some r ↦ some (finish r, if ai_enabled then some (finish r) else none)
  ]
