-- ===== src/Orchestrator/Safety/Reports.antt =====
-- services/mal-orchestrator/workflow.go: what a result owes to the outcome of one engine.
use open_mal_lab.Common.{
  ℕ, ◌≤◌, ◌≡◌, refl, true, false, Str, List, [], ◌∷◌, Option, none, some, arith, All, All-map,
}
use open_mal_lab.Pipeline.Verdict.{suspicious, rank, join}
use open_mal_lab.Pipeline.Verdict.Lattice.{rank-join}
use open_mal_lab.Pipeline.Types.{SubmissionInput, SubmissionResult, Finding, EngineReport}
use open_mal_lab.Orchestrator.Workflow.{
  Run, append_finding, floor, fold_finding, fold_findings, fold,
}
use open_mal_lab.Orchestrator.Walk.{Activities, walk, count_cap}
use open_mal_lab.Orchestrator.Safety.Keeps.{Keeps, walk-keeps}
use open_mal_lab.Orchestrator.Safety.Growth.{Keeps-Lifted, fold_findings-Lifted}

-- The result accounts for the outcome of an engine: a failure leaves it incomplete and at least
-- SUSPICIOUS, and a report is covered by the verdict, finding by finding.
abbrev pub Accounts : Option EngineReport → SubmissionResult → Type 0
Accounts none res = (res.incomplete ≡ true) × (2 ≤ rank res.verdict)
Accounts (some rep) res =
    (rep.incomplete ≡ true → res.incomplete ≡ true)
    × (rank rep.verdict ≤ rank res.verdict)
    × All (λ (f : Finding). rank f.verdict ≤ rank res.verdict) rep.findings

pub Accounts-mono :
    (o : Option EngineReport) (r s : SubmissionResult)
    → (rank r.verdict ≤ rank s.verdict) × (r.incomplete ≡ true → s.incomplete ≡ true)
    → Accounts o r
    → Accounts o s
Accounts-mono none r s g h = (g.1 h.0, omega arith)
Accounts-mono (some rep) r s g h =
    (λ e. g.1 (h.0 e), omega arith, All-map (λ f k. omega arith) rep.findings h.2)

pub Keeps-Accounts : (o : Option EngineReport) → Keeps (λ r. Accounts o r.res)
Keeps-Accounts o = record {
  at_note = λ item r. Accounts-mono o r.res _ (omega arith, λ e. e);
  at_fold = λ path engine p r.
      Accounts-mono o r.res _ ((Keeps-Lifted _ _).at_fold path engine p r (omega arith, λ e. e));
  at_type = λ run input item rep r.
      Accounts-mono o r.res _
        ((Keeps-Lifted _ _).at_type run input item rep r (omega arith, λ e. e));
  at_absorb = λ item t.
      Accounts-mono o t.0.res _ ((Keeps-Lifted _ _).at_absorb item t (omega arith, λ e. e));
}

fold_findings-covers :
    (path : Str) (r : Run) (fs : List Finding)
    → All (λ (f : Finding). rank f.verdict ≤ rank (fold_findings path r fs).res.verdict) fs
unfolding fold_findings fold_finding join
fold_findings-covers path r [] = tt
fold_findings-covers path r (f ∷ fs) =
    let r' = fold_finding path r f in
    (
      (fold_findings-Lifted (rank f.verdict) false path r' fs (ground arith)).0,
      fold_findings-covers path r' fs,
    )

pub Accounts-fold :
    (path engine : Str) (o : Option EngineReport) (r : Run)
    → Accounts o (fold path engine o r).0.res
unfolding fold join
Accounts-fold path engine none r = (refl, ground arith)
Accounts-fold path engine (some rep) r = (
  λ e. ground arith,
  ground arith,
  All-map (λ f k. ground arith) rep.findings (fold_findings-covers path r rep.findings),
)

pub walk-Accounts :
    (run : Activities) (input : SubmissionInput) (fuel : ℕ) (r s : Run) (o : Option EngineReport)
    → walk run input fuel r r.queue ≡ some s
    → Accounts o r.res
    → Accounts o s.res
walk-Accounts run input fuel r s o e h =
    walk-keeps run input (Keeps-Accounts o) (λ r rest k. k) stop fuel r s r.queue e h
  where
    stop : (r : Run) → Accounts o r.res → Accounts o (append_finding count_cap (floor r)).res
    stop r = Accounts-mono o r.res _ ((rank-join r.res.verdict suspicious).0, λ e. refl)
