-- ===== src/Tests/Orchestrator.antt =====
-- The theorems on the submission workflow, at concrete inputs.
use open_mal_lab.Common.{
  ◌+◌, ◌≤◌, ◌≡◌, refl, true, false, [], ◌∷◌, ◌++◌, Option, some, lit, All, arith, length,
}
use open_mal_lab.Common.Utf8.{valid_string}
use open_mal_lab.Pipeline.Types.{SubmissionResult}
use open_mal_lab.Orchestrator.Crumb.{crumb, max_crumb_path, clamp_bytes}
use open_mal_lab.Orchestrator.Crumb.Laws.{IsPrintable, crumb_safe, clamp_bytes_cuts_rune}
use open_mal_lab.Orchestrator.Workflow.{max_artifacts}
use open_mal_lab.Orchestrator.Walk.{submission_workflow, start}
use open_mal_lab.Orchestrator.Safety.Coverage.{AccountsFor, visited, no_detection_lost}
use open_mal_lab.Orchestrator.Safety.FailClosed.{IsFailClosed, submission_fails_closed}
use open_mal_lab.Tests.Samples.{submission, engines}

submission_fails_closed_example :
    (out : SubmissionResult × Option SubmissionResult) × (submission_workflow engines submission
        true
      ≡ some out)
    × IsFailClosed out.0
submission_fails_closed_example = submission_fails_closed engines submission true

returned :
    (out : SubmissionResult × Option SubmissionResult) × (submission_workflow engines submission
        true
      ≡ some out)
    × IsFailClosed out.0
returned = submission_fails_closed engines submission true

no_detection_lost_example : All (AccountsFor engines submission returned.0.0) (
    visited engines submission
      (max_artifacts + 1)
      (start engines submission)
      (start engines submission).queue)
no_detection_lost_example = no_detection_lost engines submission true returned.0 returned.1

crumb_safe_example :
    All IsPrintable (crumb (lit "a.zip") (10 ∷ 0x1B ∷ lit "[2J"))
    × (length (crumb (lit "a.zip") (10 ∷ 0x1B ∷ lit "[2J")) ≤ max_crumb_path + 1)
crumb_safe_example = crumb_safe (lit "a.zip") (10 ∷ 0x1B ∷ lit "[2J") (unfold lit in omega arith)

-- "ab" and the euro sign, whole within the five bytes that fit.
clamp_bytes_cuts_rune_example :
    (clamp_bytes ((lit "ab" ++ 0xE2 ∷ 0x82 ∷ 0xAC ∷ []) ++ lit "c") 5
      ≡ lit "ab" ++ 0xE2 ∷ b'~' ∷ [])
    × (valid_string (clamp_bytes ((lit "ab" ++ 0xE2 ∷ 0x82 ∷ 0xAC ∷ []) ++ lit "c") 5) ≡ false)
clamp_bytes_cuts_rune_example =
    clamp_bytes_cuts_rune (lit "ab") (0x82 ∷ 0xAC ∷ []) (lit "c") 0xE2 5 (omega arith)
      (refl, (refl, tt)) (unfold lit in λ e. cc) (unfold lit in refl)
