-- ===== src/Orchestrator/Safety/Coverage.antt =====
-- services/mal-orchestrator/workflow.go: the artifacts of the walk, and the two engines that
-- scan each.
use mathlib.Core.Option.{some-injective}
use mathlib.Core.Path.{subst}
use open_mal_lab.Common.{
  ℕ, zero, suc, ◌+◌, ◌≡◌, refl, inl, inr, Bool, Str, List, [], ◌∷◌, Option, some, arith, leb, ltb,
  if◌then◌else◌, All, All-map, Bool-cases, lit,
}
use open_mal_lab.Pipeline.Types.{SubmissionInput, SubmissionResult}
use open_mal_lab.Orchestrator.Workflow.{
  max_artifacts, WorkItem, Engine, ident, yara, Run, append_finding,
}
use open_mal_lab.Orchestrator.Walk.{
  Activities, dispatch, artifact, artifact_finding, analyze, walk, start, finish,
  submission_workflow,
}
use open_mal_lab.Orchestrator.Safety.Keeps.{rest-keeps, dispatch-keeps, note-keeps}
use open_mal_lab.Orchestrator.Safety.Termination.{Keeps-At, walk-total}
use open_mal_lab.Orchestrator.Safety.Reports.{
  Accounts, Accounts-mono, Keeps-Accounts, Accounts-fold, walk-Accounts,
}

module _ (run : Activities) (input : SubmissionInput) where
  -- The artifacts that the walk analyzes, each with its number.
  pub visited : ℕ → Run → List WorkItem → List (ℕ × WorkItem)
  visited fuel r [] = []
  visited zero r (item ∷ rest) = []
  visited (suc fuel) r (item ∷ rest) =
      let taken = record r { queue = rest; processed = r.processed + 1 } in
      let next = analyze run input item taken in
      let later = visited fuel next next.queue in
      if leb max_artifacts r.processed then [] else (taken.processed, item) ∷ later

  abbrev pub AccountsFor : SubmissionResult → ℕ × WorkItem → Type 0
  AccountsFor res v =
      Accounts (run ident v.0 (artifact run input v.1)) res
      × Accounts (run yara v.0 (artifact run input v.1)) res

  dispatch-Accounts :
      (e : Engine) (name : Str) (item : WorkItem) (r : Run) (n : ℕ)
      → r.processed ≡ n
      → Accounts (run e n (artifact run input item)) (dispatch run input e name item r).0.res
  unfolding dispatch
  dispatch-Accounts e name item r n p =
      subst
        (λ m. Accounts (run e m (artifact run input item)) (dispatch run input e name item r).0.res)
        p (Accounts-fold item.path name (run e r.processed (artifact run input item)) r)

  analyze-AccountsFor :
      (item : WorkItem) (r : Run) → AccountsFor (analyze run input item r).res (r.processed, item)
  unfolding analyze
  analyze-AccountsFor item r =
      let noted = if ltb 0 item.depth then append_finding (artifact_finding item) r else r in
      let at : noted.processed ≡ r.processed =
        note-keeps run input (Keeps-At r.processed) item r refl in
      let first = dispatch run input ident (lit "mal-ident") item noted in
      let at' : first.0.processed ≡ r.processed =
        dispatch-keeps run input (Keeps-At r.processed) ident _ item noted at in
      (
        rest-keeps run input (Keeps-Accounts _) item _ _ (
            dispatch-keeps run input (Keeps-Accounts _) yara _ item first.0
              (dispatch-Accounts ident _ item noted r.processed at)),
        rest-keeps run input (Keeps-Accounts _) item _ _
            (dispatch-Accounts yara _ item first.0 r.processed at'),
      )

  walk-AccountsFor :
      (fuel : ℕ) (r s : Run) (queue : List WorkItem)
      → walk run input fuel r queue ≡ some s
      → All (AccountsFor s.res) (visited fuel r queue)
  unfolding walk visited
  walk-AccountsFor fuel r s [] e = tt
  walk-AccountsFor zero r s (item ∷ rest) e = tt
  walk-AccountsFor (suc fuel) r s (item ∷ rest) e =
      let taken = record r { queue = rest; processed = r.processed + 1 } in
      let next = analyze run input item taken in
      elim (Bool-cases (leb max_artifacts r.processed)) [
        | inl k ↦ rw k tt
        | inr k ↦ rw k (
          let found = analyze-AccountsFor item taken in
              (
                walk-Accounts run input fuel next s _ (rw k at e) found.0,
                walk-Accounts run input fuel next s _ (rw k at e) found.1,
              ),
          walk-AccountsFor fuel next s next.queue (rw k at e),
        )
      ]

  finish-AccountsFor :
      (s : Run) (vs : List (ℕ × WorkItem))
      → All (AccountsFor s.res) vs
      → All (AccountsFor (finish run input s)) vs
  unfolding finish
  finish-AccountsFor s vs =
      All-map
        (λ v h. (
          Accounts-mono _ s.res _ (omega arith, λ e. e) h.0,
          Accounts-mono _ s.res _ (omega arith, λ e. e) h.1,
        ))
        vs

  -- For every artifact that the walk analyzes, the root first, the result of the workflow accounts
  -- for its identification and its yara scan: an engine that failed leaves the result incomplete and
  -- at least SUSPICIOUS; one that reported has its verdict and each of its findings' verdicts, also
  -- those that the size cap omits, covered by the final verdict, and its `incomplete` passed on.
  pub no_detection_lost :
      (ai_enabled : Bool) (out : SubmissionResult × Option SubmissionResult)
      → submission_workflow run input ai_enabled ≡ some out
      → All
          (AccountsFor out.0)
          (visited (max_artifacts + 1) (start run input) (start run input).queue)
  unfolding submission_workflow
  no_detection_lost ai_enabled out e =
      let r = start run input in
      let (s, done) = walk-total run input max_artifacts r r.queue (unfold start in omega arith) in
      subst
        (λ (o : SubmissionResult × Option SubmissionResult).
          All (AccountsFor o.0) (visited (max_artifacts + 1) r r.queue))
        (some-injective _ _ (rw (done, submission_workflow) at e))
        (finish-AccountsFor s _ (walk-AccountsFor (max_artifacts + 1) r s r.queue done))
