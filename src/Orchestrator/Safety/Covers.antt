-- ===== src/Orchestrator/Safety/Covers.antt =====
-- services/mal-orchestrator/workflow.go: the verdict of the result beside those of its findings.
use open_mal_lab.Common.{
  ℕ, ◌+◌, ◌≤◌, ◌≡◌, refl, Bool, true, false, Str, List, [], ◌∷◌, Option, none, some, arith, ltb,
  leb, ◌==◌, All, All-map, All-append,
}
use open_mal_lab.Pipeline.Verdict.{Verdict, suspicious, rank}
use open_mal_lab.Pipeline.Verdict.Lattice.{rank-join}
use open_mal_lab.Pipeline.Types.{SubmissionInput, Finding, Child, EngineReport}
use open_mal_lab.Orchestrator.Workflow.{
  max_depth, max_findings_bytes, max_submission_ingest_bytes, WorkItem, Run, append_finding, lift,
  floor, finding_size, fold_finding, fold_findings, fold,
}
use open_mal_lab.Orchestrator.Walk.{
  enqueue_child, enqueue_children, absorb, count_cap, artifact_finding, Activities, set_file_type,
  walk, start,
}
use open_mal_lab.Orchestrator.Safety.Invariant.{Inv, Keeps-Inv, start-Inv, take-Inv, stop-Inv}
use open_mal_lab.Orchestrator.Safety.Keeps.{Keeps, walk-keeps, if_keeps}

abbrev pub Covers : Run → Type 0
Covers r = All (λ (f : Finding). rank f.verdict ≤ rank r.res.verdict) r.res.findings

below_trans :
    (m n : ℕ) (fs : List Finding)
    → m ≤ n
    → All (λ (f : Finding). rank f.verdict ≤ m) fs
    → All (λ (f : Finding). rank f.verdict ≤ n) fs
below_trans m n fs h = All-map (λ f k. omega arith) fs

Covers-lift : (v : Verdict) (r : Run) → Covers r → Covers (lift v r)
Covers-lift v r h =
    below_trans (rank r.res.verdict) _ r.res.findings (rank-join r.res.verdict v).0 h

Covers-append :
    (f : Finding) (r : Run)
    → rank f.verdict ≤ rank r.res.verdict
    → Covers r
    → Covers (append_finding f r)
Covers-append f r k h = All-append _ r.res.findings _ h (k, tt)

Covers-floor :
    (f : Finding) (r : Run)
    → f.verdict ≡ suspicious
    → Covers r
    → Covers (append_finding f (floor r))
Covers-floor f r e h =
    Covers-append f (floor r) (rw e (rank-join r.res.verdict suspicious).1)
      (Covers-lift suspicious r h)

Covers-fold_finding :
    (path : Str) (r : Run) (f : Finding) → Covers r → Covers (fold_finding path r f)
unfolding fold_finding
Covers-fold_finding path r f h =
    let h1 = Covers-lift f.verdict r h in
    if_keeps Covers (ltb max_findings_bytes (r.findings_bytes + finding_size path f))
      (if_keeps Covers r.findings_capped h1 (Covers-floor _ (lift f.verdict r) refl h1))
      (Covers-append _ (lift f.verdict r) (rank-join r.res.verdict f.verdict).1 h1)

Covers-fold_findings :
    (path : Str) (r : Run) (fs : List Finding) → Covers r → Covers (fold_findings path r fs)
unfolding fold_findings
Covers-fold_findings path r [] h = h
Covers-fold_findings path r (f ∷ fs) h =
    Covers-fold_findings path (fold_finding path r f) fs (Covers-fold_finding path r f h)

Covers-fold :
    (path engine : Str) (o : Option EngineReport) (r : Run)
    → Covers r
    → Covers (fold path engine o r).0
unfolding fold
Covers-fold path engine none r h = Covers-floor _ r refl h
Covers-fold path engine (some rep) r h =
    let folded = fold_findings path r rep.findings in
    let h1 = Covers-lift rep.verdict folded (Covers-fold_findings path r rep.findings h) in
    if_keeps Covers rep.incomplete (Covers-lift suspicious (lift rep.verdict folded) h1) h1

Covers-enqueue_children :
    (item : WorkItem) (r : Run) (cs : List Child) → Covers r → Covers (enqueue_children item r cs)
unfolding enqueue_children enqueue_child
Covers-enqueue_children item r [] h = h
Covers-enqueue_children item r (c ∷ cs) h =
    Covers-enqueue_children item (enqueue_child item r c) cs (
      if_keeps Covers (leb (item.depth + 1) max_depth) h
        (if_keeps Covers r.depth_capped h (Covers-floor _ r refl h)))

Covers-absorb :
    (item : WorkItem) (t : Run × EngineReport × Bool) → Covers t.0 → Covers (absorb item t)
unfolding absorb
Covers-absorb item (r, rep, false) h = h
Covers-absorb item (r, rep, true) h =
    if_keeps Covers (ltb max_submission_ingest_bytes (r.submission_ingested + rep.ingested_bytes))
      (if_keeps Covers r.ingest_capped h (Covers-floor _ r refl h))
      (Covers-enqueue_children item _ rep.children h)

Covers-type :
    (run : Activities) (input : SubmissionInput) (item : WorkItem) (rep : EngineReport) (r : Run)
    → Covers r
    → Covers (set_file_type run input item rep r)
unfolding set_file_type
Covers-type run input item rep r h = if_keeps Covers (item.depth == 0) h h

-- The invariant, and that the verdict covers each finding.
pub record Sound (r : Run) : Type 0 where
  pub inv : Inv r
  pub covers : Covers r

pub Keeps-Sound : Keeps Sound
unfolding artifact_finding
Keeps-Sound = record {
  at_note = λ item r h. record {
    inv = Keeps-Inv.at_note item r h.inv;
    covers = Covers-append _ r h.inv.not_benign h.covers;
  };
  at_fold = λ path engine o r h. record {
    inv = Keeps-Inv.at_fold path engine o r h.inv;
    covers = Covers-fold path engine o r h.covers;
  };
  at_type = λ run input item rep r h. record {
    inv = Keeps-Inv.at_type run input item rep r h.inv;
    covers = Covers-type run input item rep r h.covers;
  };
  at_absorb = λ item t h. record {
    inv = Keeps-Inv.at_absorb item t h.inv;
    covers = Covers-absorb item t h.covers;
  };
}

stop-Sound : (r : Run) → Sound r → Sound (append_finding count_cap (floor r))
unfolding count_cap
stop-Sound r h = record { inv = stop-Inv r h.inv; covers = Covers-floor _ r refl h.covers }

pub walk-Sound :
    (run : Activities) (input : SubmissionInput) (fuel : ℕ) (s : Run)
    → walk run input fuel (start run input) (start run input).queue ≡ some s
    → Sound s
walk-Sound run input fuel s e =
    walk-keeps run input Keeps-Sound
      (λ r rest h. record { inv = take-Inv r rest h.inv; covers = h.covers }) stop-Sound fuel
      (start run input) s (start run input).queue e
      (record { inv = start-Inv run input; covers = unfold start in tt })
