-- ===== src/Orchestrator/Safety/Termination.antt =====
-- services/mal-orchestrator/workflow.go: the rounds of the walk and its fuel.
use open_mal_lab.Common.{
  ℕ, zero, suc, ◌+◌, ◌≤◌, ◌≡◌, refl, Bool, true, false, Str, List, [], ◌∷◌, Option, none, some,
  arith, ltb, leb, Bool-cases, inl, inr,
}
use open_mal_lab.Pipeline.Types.{SubmissionInput, Finding, Child, EngineReport}
use open_mal_lab.Orchestrator.Workflow.{
  max_artifacts, max_submission_ingest_bytes, WorkItem, Run, append_finding, floor, fold_finding,
  fold_findings, fold,
}
use open_mal_lab.Orchestrator.Walk.{
  enqueue_child, enqueue_children, absorb, count_cap, Activities, set_file_type, analyze, walk,
}
use open_mal_lab.Orchestrator.Safety.Keeps.{Keeps, analyze-keeps, if_keeps}

module _ (k : ℕ) where
  abbrev At : Run → Type 0
  At r = r.processed ≡ k

  At-fold_findings :
      (path : Str) (r : Run) (fs : List Finding) → At r → At (fold_findings path r fs)
  unfolding fold_findings fold_finding
  At-fold_findings path r [] h = h
  At-fold_findings path r (f ∷ fs) h =
      At-fold_findings path (fold_finding path r f) fs (ground arith)

  At-fold :
      (path engine : Str) (o : Option EngineReport) (r : Run) → At r → At (fold path engine o r).0
  unfolding fold
  At-fold path engine none r h = h
  At-fold path engine (some rep) r h = ground (arith, At-fold_findings path r rep.findings h)

  At-enqueue_children :
      (item : WorkItem) (r : Run) (cs : List Child) → At r → At (enqueue_children item r cs)
  unfolding enqueue_children enqueue_child
  At-enqueue_children item r [] h = h
  At-enqueue_children item r (c ∷ cs) h =
      At-enqueue_children item (enqueue_child item r c) cs (ground arith)

  At-absorb : (item : WorkItem) (t : Run × EngineReport × Bool) → At t.0 → At (absorb item t)
  unfolding absorb
  At-absorb item (r, rep, false) h = h
  At-absorb item (r, rep, true) h =
      if_keeps At (ltb max_submission_ingest_bytes (r.submission_ingested + rep.ingested_bytes))
        (if_keeps At r.ingest_capped h h) (At-enqueue_children item _ rep.children h)

  pub Keeps-At : Keeps At
  unfolding set_file_type
  Keeps-At = record {
    at_note = λ item r h. h;
    at_fold = At-fold;
    at_type = λ run input item rep r h. ground arith;
    at_absorb = At-absorb;
  }

module _ (run : Activities) (input : SubmissionInput) where
  pub processed-analyze :
      (item : WorkItem) (r : Run) → (analyze run input item r).processed ≡ r.processed
  processed-analyze item r = analyze-keeps run input (Keeps-At r.processed) item r refl

  pub walk-total :
      (fuel : ℕ) (r : Run) (queue : List WorkItem)
      → max_artifacts ≤ r.processed + fuel
      → (s : Run) × (walk run input (suc fuel) r queue ≡ some s)
  unfolding walk
  walk-total fuel r [] h = (r, refl)
  walk-total zero r (item ∷ rest) h = (append_finding count_cap (floor r), ground arith)
  walk-total (suc fuel) r (item ∷ rest) h = elim (Bool-cases (leb max_artifacts r.processed)) [
    | inl k ↦ (append_finding count_cap (floor r), rw k)
    | inr k ↦ rw k (
        walk-total fuel
          (analyze run input item (record r { queue = rest; processed = r.processed + 1 })) _
          (omega (
            arith,
            processed-analyze item (record r { queue = rest; processed = r.processed + 1 }),
          )))
  ]
