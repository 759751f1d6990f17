-- ===== src/Orchestrator/Safety/Invariant.antt =====
-- services/mal-orchestrator/workflow.go: an invariant of the workflow's local variables.
use open_mal_lab.Common.{
  ◌+◌, ◌≤◌, ◌≡◌, Bool, true, false, Str, List, [], ◌∷◌, Option, none, some, arith, ltb, Bool-cases,
  inl, inr,
}
use open_mal_lab.Pipeline.Verdict.{rank, join}
use open_mal_lab.Orchestrator.Safety.Keeps.{Keeps}
use open_mal_lab.Pipeline.Types.{SubmissionInput, Finding, Child, EngineReport}
use open_mal_lab.Orchestrator.Workflow.{
  max_findings_bytes, max_submission_ingest_bytes, WorkItem, Run, append_finding, floor,
  fold_finding, fold_findings, fold,
}
use open_mal_lab.Orchestrator.Walk.{
  count_cap, enqueue_child, enqueue_children, absorb, Activities, set_file_type, start,
}

pub record Inv (r : Run) : Type 0 where
  pub not_benign : 1 ≤ rank r.res.verdict
  pub floored : r.res.incomplete ≡ true → 2 ≤ rank r.res.verdict
  pub within_budget : r.findings_bytes ≤ max_findings_bytes
  pub findings_cap : r.findings_capped ≡ true → r.res.incomplete ≡ true
  pub depth_cap : r.depth_capped ≡ true → r.res.incomplete ≡ true
  pub ingest_cap : r.ingest_capped ≡ true → r.res.incomplete ≡ true
  pub ingest_budget : r.ingest_capped ≡ false → r.submission_ingested ≤ max_submission_ingest_bytes

fold_finding-Inv : (path : Str) (r : Run) (f : Finding) → Inv r → Inv (fold_finding path r f)
unfolding fold_finding join
fold_finding-Inv path r f h = ground arith

pub fold_findings-Inv :
    (path : Str) (r : Run) (fs : List Finding) → Inv r → Inv (fold_findings path r fs)
unfolding fold_findings
fold_findings-Inv path r [] h = h
fold_findings-Inv path r (f ∷ fs) h =
    fold_findings-Inv path (fold_finding path r f) fs (fold_finding-Inv path r f h)

fold-Inv :
    (path engine : Str) (o : Option EngineReport) (r : Run) → Inv r → Inv (fold path engine o r).0
unfolding fold join
fold-Inv path engine none r h = ground arith
fold-Inv path engine (some rep) r h = ground (arith, fold_findings-Inv path r rep.findings)

enqueue_child-Inv : (item : WorkItem) (r : Run) (c : Child) → Inv r → Inv (enqueue_child item r c)
unfolding enqueue_child join
enqueue_child-Inv item r c h = ground arith

enqueue_children-Inv :
    (item : WorkItem) (r : Run) (cs : List Child) → Inv r → Inv (enqueue_children item r cs)
unfolding enqueue_children
enqueue_children-Inv item r [] h = h
enqueue_children-Inv item r (c ∷ cs) h =
    enqueue_children-Inv item (enqueue_child item r c) cs (enqueue_child-Inv item r c h)

absorb-Inv : (item : WorkItem) (t : Run × EngineReport × Bool) → Inv t.0 → Inv (absorb item t)
unfolding absorb join
absorb-Inv item (r, rep, false) h = h
absorb-Inv item (r, rep, true) h =
    elim (Bool-cases
      (ltb max_submission_ingest_bytes (r.submission_ingested + rep.ingested_bytes))) [
        | inl e ↦ rw e (ground arith)
        | inr e ↦ rw e (enqueue_children-Inv item _ rep.children (ground arith))
      ]

pub Keeps-Inv : Keeps Inv
unfolding set_file_type join
Keeps-Inv = record {
  at_note = λ item r h. ground arith;
  at_fold = fold-Inv;
  at_type = λ run input item rep r h. ground arith;
  at_absorb = absorb-Inv;
}

pub start-Inv : (run : Activities) (input : SubmissionInput) → Inv (start run input)
unfolding start
start-Inv run input = ground arith

pub take-Inv :
    (r : Run) (rest : List WorkItem)
    → Inv r
    → Inv (record r { queue = rest; processed = r.processed + 1 })
take-Inv r rest h = ground arith

pub stop-Inv : (r : Run) → Inv r → Inv (append_finding count_cap (floor r))
unfolding count_cap join
stop-Inv r h = ground arith
