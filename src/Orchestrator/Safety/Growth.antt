-- ===== src/Orchestrator/Safety/Growth.antt =====
-- services/mal-orchestrator/workflow.go: the verdict and the mark of incompleteness along the
-- walk.
use open_mal_lab.Common.{
  ℕ, ◌+◌, ◌≤◌, ◌≡◌, Bool, true, false, Str, List, [], ◌∷◌, Option, none, some, arith, ltb,
}
use open_mal_lab.Pipeline.Verdict.{rank, join}
use open_mal_lab.Pipeline.Types.{Finding, Child, EngineReport}
use open_mal_lab.Orchestrator.Workflow.{
  max_submission_ingest_bytes, WorkItem, Run, fold_finding, fold_findings, fold,
}
use open_mal_lab.Orchestrator.Walk.{enqueue_child, enqueue_children, absorb, set_file_type}
use open_mal_lab.Orchestrator.Safety.Keeps.{Keeps, if_keeps}

-- The verdict has rank `v` at least, and the result is incomplete if `i` is true.
abbrev pub Lifted : ℕ → Bool → Run → Type 0
Lifted v i r = (v ≤ rank r.res.verdict) × (i ≡ true → r.res.incomplete ≡ true)

module _ (v : ℕ) (i : Bool) where
  pub fold_findings-Lifted :
      (path : Str) (r : Run) (fs : List Finding)
      → Lifted v i r
      → Lifted v i (fold_findings path r fs)
  unfolding fold_findings fold_finding join
  fold_findings-Lifted path r [] h = h
  fold_findings-Lifted path r (f ∷ fs) h =
      fold_findings-Lifted path (fold_finding path r f) fs (ground arith)

  fold-Lifted :
      (path engine : Str) (o : Option EngineReport) (r : Run)
      → Lifted v i r
      → Lifted v i (fold path engine o r).0
  unfolding fold join
  fold-Lifted path engine none r h = ground arith
  fold-Lifted path engine (some rep) r h =
      ground (arith, fold_findings-Lifted path r rep.findings h)

  enqueue_children-Lifted :
      (item : WorkItem) (r : Run) (cs : List Child)
      → Lifted v i r
      → Lifted v i (enqueue_children item r cs)
  unfolding enqueue_children enqueue_child join
  enqueue_children-Lifted item r [] h = h
  enqueue_children-Lifted item r (c ∷ cs) h =
      enqueue_children-Lifted item (enqueue_child item r c) cs (ground arith)

  absorb-Lifted :
      (item : WorkItem) (t : Run × EngineReport × Bool)
      → Lifted v i t.0
      → Lifted v i (absorb item t)
  unfolding absorb join
  absorb-Lifted item (r, rep, false) h = h
  absorb-Lifted item (r, rep, true) h =
      if_keeps (Lifted v i)
        (ltb max_submission_ingest_bytes (r.submission_ingested + rep.ingested_bytes))
        (ground arith) (enqueue_children-Lifted item _ rep.children h)

  pub Keeps-Lifted : Keeps (Lifted v i)
  unfolding set_file_type
  Keeps-Lifted = record {
    at_note = λ item r h. h;
    at_fold = fold-Lifted;
    at_type = λ run input item rep r h. ground arith;
    at_absorb = absorb-Lifted;
  }
