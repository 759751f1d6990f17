-- ===== src/Orchestrator/Safety/Keeps.antt =====
-- services/mal-orchestrator/workflow.go: how a predicate on the local variables passes through
-- the walk.
use open_mal_lab.Common.{
  ℕ, zero, suc, ◌+◌, ◌≡◌, Bool, true, false, ◌&&◌, Str, List, [], ◌∷◌, Option, some, ltb, leb, ◌==◌,
  if◌then◌else◌, Bool-cases, inl, inr,
}
use mathlib.Core.Path.{subst}
use mathlib.Core.Option.{some-injective}
use open_mal_lab.Pipeline.Types.{SubmissionInput, EngineReport}
use open_mal_lab.Orchestrator.Workflow.{
  max_artifacts, WorkItem, Engine, Run, append_finding, floor, fold, yara, ident,
}
use open_mal_lab.Orchestrator.Gates.{is_executable, is_pe, is_elf}
use open_mal_lab.Orchestrator.Walk.{
  absorb, count_cap, artifact_finding, Activities, dispatch, scan_executable, scan_pe, scan_elf,
  set_file_type, unpack, analyze, walk,
}

pub if_keeps {ℓ κ} :
    {A : Type ℓ} (P : A → Type κ) (b : Bool) {x y : A} → P x → P y → P (if b then x else y)
if_keeps P true p q = p
if_keeps P false p q = q

-- `P` is kept by each statement of the loop's body.
pub record Keeps (P : Run → Type 0) : Type 0 where
  pub at_note : (item : WorkItem) (r : Run) → P r → P (append_finding (artifact_finding item) r)
  pub at_fold :
      (path engine : Str) (o : Option EngineReport) (r : Run) → P r → P (fold path engine o r).0
  pub at_type :
      (run : Activities) (input : SubmissionInput) (item : WorkItem) (rep : EngineReport) (r : Run)
      → P r
      → P (set_file_type run input item rep r)
  pub at_absorb : (item : WorkItem) (t : Run × EngineReport × Bool) → P t.0 → P (absorb item t)

module _ (run : Activities) (input : SubmissionInput) {P : Run → Type 0} (keeps : Keeps P) where
  pub dispatch-keeps :
      (e : Engine) (name : Str) (item : WorkItem) (r : Run)
      → P r
      → P (dispatch run input e name item r).0
  unfolding dispatch
  dispatch-keeps e name item r h = keeps.at_fold item.path name _ r h

  scan_executable-keeps :
      (item : WorkItem) (rep : EngineReport) (r : Run)
      → P r
      → P (scan_executable run input item rep r)
  unfolding scan_executable
  scan_executable-keeps item rep r h =
      if_keeps P (is_executable rep) (dispatch-keeps _ _ item _ (dispatch-keeps _ _ item r h)) h

  scan_pe-keeps :
      (item : WorkItem) (rep : EngineReport) (r : Run) → P r → P (scan_pe run input item rep r)
  unfolding scan_pe
  scan_pe-keeps item rep r h = if_keeps P (is_pe rep) (dispatch-keeps _ _ item r h) h

  scan_elf-keeps :
      (item : WorkItem) (rep : EngineReport) (r : Run) → P r → P (scan_elf run input item rep r)
  unfolding scan_elf
  scan_elf-keeps item rep r h =
      if_keeps P (input.detonate && item.depth == 0 && is_elf rep) (dispatch-keeps _ _ item r h) h

  unpack-keeps : (item : WorkItem) (r : Run) → P r → P (unpack run input item r)
  unfolding unpack
  unpack-keeps item r h =
      if_keeps P r.ingest_capped h (keeps.at_absorb item _ (dispatch-keeps _ _ item r h))

  pub note-keeps :
      (item : WorkItem) (r : Run)
      → P r
      → P (if ltb 0 item.depth then append_finding (artifact_finding item) r else r)
  note-keeps item r h = if_keeps P (ltb 0 item.depth) (keeps.at_note item r h) h

  -- What follows the two scans that every artifact gets.
  pub rest-keeps :
      (item : WorkItem) (rep : EngineReport) (r : Run)
      → P r
      → P (
          unpack run input item (
            scan_elf run input item rep (
              scan_pe run input item rep
                (scan_executable run input item rep (set_file_type run input item rep r)))))
  rest-keeps item rep r h = unpack-keeps item _ (
      scan_elf-keeps item rep _ (
        scan_pe-keeps item rep _
          (scan_executable-keeps item rep _ (keeps.at_type run input item rep r h))))

  pub analyze-keeps : (item : WorkItem) (r : Run) → P r → P (analyze run input item r)
  unfolding analyze
  analyze-keeps item r h =
      rest-keeps item _ _
        (dispatch-keeps yara _ item _ (dispatch-keeps ident _ item _ (note-keeps item r h)))

  -- A predicate that the statements keep, and that taking an item from the queue and stopping at
  -- the artifact cap keep too, passes from the start of the walk to its end.
  pub walk-keeps :
      ((r : Run) (rest : List WorkItem)
        → P r
        → P (record r { queue = rest; processed = r.processed + 1 }))
      → ((r : Run) → P r → P (append_finding count_cap (floor r)))
      → (fuel : ℕ) (r s : Run) (queue : List WorkItem) → walk run input fuel r queue ≡ some s
      → P r
      → P s
  unfolding walk
  walk-keeps take stop fuel r s [] e h = subst P (cc) h
  walk-keeps take stop zero r s (item ∷ rest) e h = cc
  walk-keeps take stop (suc fuel) r s (item ∷ rest) e h =
      elim (Bool-cases (leb max_artifacts r.processed)) [
        | inl k ↦ subst P (some-injective _ _ (rw k at e)) (stop r h)
        | inr k ↦ walk-keeps take stop fuel _ s _ (rw k at e) (analyze-keeps item _ (take r rest h))
      ]
