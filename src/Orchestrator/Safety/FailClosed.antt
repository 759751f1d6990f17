-- ===== src/Orchestrator/Safety/FailClosed.antt =====
-- services/mal-orchestrator/workflow.go: what a submission gets.
use open_mal_lab.Common.{
  ◌+◌, ◌≤◌, ◌≡◌, refl, Bool, true, Option, none, some, arith, All, if◌then◌else◌,
}
use open_mal_lab.Pipeline.Verdict.{rank}
use open_mal_lab.Pipeline.Types.{SubmissionInput, Finding, SubmissionResult}
use open_mal_lab.Pipeline.Score.{score_findings}
use open_mal_lab.Orchestrator.Workflow.{max_artifacts, Run}
use open_mal_lab.Orchestrator.Walk.{Activities, start, finish, submission_workflow}
use open_mal_lab.Orchestrator.Safety.Covers.{Sound, walk-Sound}
use open_mal_lab.Orchestrator.Safety.Termination.{walk-total}

pub record IsFailClosed (res : SubmissionResult) : Type 0 where
  pub not_benign : 1 ≤ rank res.verdict
  pub floored : res.incomplete ≡ true → 2 ≤ rank res.verdict
  pub covers : All (λ (f : Finding). rank f.verdict ≤ rank res.verdict) res.findings
  pub scored : score_findings res.findings ≡ (res.score, res.confidence)

finish-IsFailClosed :
    (run : Activities) (input : SubmissionInput) (r : Run)
    → Sound r
    → IsFailClosed (finish run input r)
unfolding finish
finish-IsFailClosed run input r h = record {
  not_benign = h.inv.not_benign;
  floored = h.inv.floored;
  covers = h.covers;
  scored = refl;
}

-- Whatever the engines do, fail or report, the workflow returns a result; its verdict is at least
-- UNKNOWN, is at least SUSPICIOUS if the result is marked incomplete, and is at least that of each
-- finding of the result; its score and confidence are those of its findings.
pub submission_fails_closed :
    (run : Activities) (input : SubmissionInput) (ai_enabled : Bool)
    → (out : SubmissionResult × Option SubmissionResult) × (submission_workflow run input ai_enabled
        ≡ some out)
      × IsFailClosed out.0
unfolding submission_workflow
submission_fails_closed run input ai_enabled =
    let (s, e) =
      walk-total run input max_artifacts (start run input) (start run input).queue fits in
    (
      (finish run input s, if ai_enabled then some (finish run input s) else none),
      rw (e, submission_workflow),
      finish-IsFailClosed run input s (walk-Sound run input _ s e),
    )
  where
    fits : max_artifacts ≤ (start run input).processed + max_artifacts
    fits = omega arith
