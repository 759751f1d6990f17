-- ===== src/Orchestrator/Activity.antt =====
-- services/mal-orchestrator/activity.go: the path of a worker's output through the broker, and the
-- engine activities.
pub mod Decoded
use open_mal_lab.Common.{
  ℕ, Bool, true, false, not, ◌&&◌, ◌||◌, Str, List, [], ◌∷◌, ◌++◌, Option, none, some, ◌==◌,
  if◌then◌else◌, length, lit,
}
use open_mal_lab.Common.Result.{Result, ok, err, ◌>>=◌, ◌>>◌, guard}
use open_mal_lab.Broker.{Report, child_sha_matches}
use open_mal_lab.Broker as Broker
use open_mal_lab.Pipeline.Verdict.{Verdict, unknown, parse_verdict}
use open_mal_lab.Pipeline.Confidence.{confidence_for}
use open_mal_lab.Pipeline.Types.{SubmissionInput, Finding, EngineReport}
use open_mal_lab.Orchestrator.Workflow.{empty_report}
use open_mal_lab.Orchestrator.Jail.{
  Docker, Mount, JailSpec, JailResult, JailError, sample_mount, run_jailed, sanitize_for_log,
}

-- The fields of `Analyzer` that an engine's jail is made from.
pub record Analyzer : Type 0 where
  pub vault_volume : Str
  pub staging_vol : Str
  pub worker_image : Str
  pub ident_image : Str
  pub extract_image : Str
  pub capa_image : Str
  pub floss_image : Str
  pub broker_image : Str
  pub worker_wall : ℕ
  pub ident_wall : ℕ
  pub extract_wall : ℕ
  pub capa_wall : ℕ
  pub floss_wall : ℕ
  pub broker_wall : ℕ
  pub capa_mem_bytes : ℕ
  pub capa_scratch : Str
  pub floss_mem_bytes : ℕ
  pub floss_scratch : Str
  pub detonate_image : Str
  pub detonate_wall : ℕ
  pub detonate_mem_bytes : ℕ
  pub detonate_scratch : Str
  pub die_image : Str
  pub die_wall : ℕ

pub data ActivityError : Type 0 where
  bad_input : ActivityError
  worker_jail broker_jail : JailError → ActivityError
  worker_exited : ℕ → ActivityError
  worker_oversize broker_oversize broker_contract : ActivityError
  broker_reject : Str → ActivityError
  nonce staging_dir staging_chown : ActivityError

-- An error under another name.
unfoldable pub or_else : {E F A : Type 0} → (E → F) → Result E A → Result F A
or_else f (ok a) = ok a
or_else f (err e) = err (f e)

-- Whether Temporal retries the activity: all but the errors that the source marks as
-- NonRetryableApplicationError.
unfoldable pub is_retryable : ActivityError → Bool
is_retryable bad_input = false
is_retryable (worker_jail e) = true
is_retryable (broker_jail e) = true
is_retryable (worker_exited n) = true
is_retryable worker_oversize = false
is_retryable broker_oversize = false
is_retryable broker_contract = false
is_retryable (broker_reject s) = false
is_retryable nonce = true
is_retryable staging_dir = true
is_retryable staging_chown = true

-- `brokerReport` has the fields of the broker's own report. `decode` is a strict Decode of the first
-- document of the bytes.
abbrev pub Decode : Type 0
Decode = Str → Option Report

unfoldable pub or_contract : Option Report → Result ActivityError Report
or_contract none = err broker_contract
or_contract (some br) = ok br

-- The jail of the broker, with the worker's output as its input.
unfoldable pub broker_spec : Analyzer → JailSpec → Str → JailSpec
broker_spec a spec stdin = record {
  image = a.broker_image;
  mounts = [];
  stdin = stdin;
  wall_clock = a.broker_wall;
  submission_id = spec.submission_id;
  env = [];
  memory_bytes = 0;
  scratch_size = [];
}

-- What follows the run of the worker.
unfoldable pub through_broker :
    Docker → Decode → Analyzer → JailSpec → JailResult → Result ActivityError Report
unfolding or_else or_contract broker_spec
through_broker docker decode a spec scan = do
  guard (scan.exit_code == 0) (worker_exited scan.exit_code)
  guard (not scan.stdout_truncated) worker_oversize
  brok ← or_else broker_jail (run_jailed docker (broker_spec a spec scan.stdout))
  guard (brok.exit_code == 0) (broker_reject (sanitize_for_log brok.stderr 200))
  guard (not brok.stdout_truncated) broker_oversize
  or_contract (decode brok.stdout)

unfoldable pub run_worker_through_broker :
    Docker → Decode → Analyzer → JailSpec → Str → Result ActivityError Report
unfolding through_broker
run_worker_through_broker docker decode a spec sha = do
  guard (child_sha_matches sha) bad_input
  scan ← or_else worker_jail (run_jailed docker spec)
  through_broker docker decode a spec scan

unfoldable pub map_finding : Broker.Finding → Finding
map_finding f =
    let v = (parse_verdict f.verdict).0 in
    record {
      engine = f.engine;
      type = f.type;
      detail = f.detail;
      attck = f.attck;
      verdict = v;
      confidence = confidence_for f.engine f.type v;
      path = [];
    }

-- The loop over the broker's findings.
unfoldable pub map_findings : List Broker.Finding → EngineReport → EngineReport
unfolding map_finding
map_findings [] rep = rep
map_findings (f ∷ fs) rep = map_findings fs (record rep {
  incomplete = if (parse_verdict f.verdict).1 then rep.incomplete else true;
  findings = rep.findings ++ map_finding f ∷ [];
})

unfoldable pub map_report : Report → EngineReport
unfolding map_findings
map_report br =
    let (v, parsed) = parse_verdict br.verdict in
    map_findings br.findings (record empty_report {
      engine = br.engine;
      incomplete = if parsed then br.incomplete else true;
      verdict = v;
    })

-- The jail of an engine that takes the default caps.
abbrev pub light_spec : Analyzer → Str → ℕ → SubmissionInput → JailSpec
light_spec a image wall input = record {
  image = image;
  mounts = sample_mount a.vault_volume input.sha256 ∷ [];
  stdin = [];
  wall_clock = wall;
  submission_id = input.submission_id;
  env = [];
  memory_bytes = 0;
  scratch_size = [];
}

-- HOME and TMPDIR on the writable scratch.
unfoldable pub scratch_env : List Str
unfolding lit
scratch_env = lit "HOME=/scratch" ∷ lit "TMPDIR=/scratch" ∷ []

abbrev heavy_spec : Analyzer → Str → ℕ → ℕ → Str → SubmissionInput → JailSpec
heavy_spec a image wall memory scratch input = record (light_spec a image wall input) {
  env = scratch_env;
  memory_bytes = memory;
  scratch_size = scratch;
}

module _ (docker : Docker) (decode : Decode) (a : Analyzer) where
  unfoldable pub run_engine : JailSpec → SubmissionInput → Result ActivityError EngineReport
  unfolding run_worker_through_broker map_report
  run_engine spec input = do
    br ← run_worker_through_broker docker decode a spec input.sha256
    ok (map_report br)

  unfoldable pub static_analyze_activity : SubmissionInput → Result ActivityError EngineReport
  static_analyze_activity input = run_engine (light_spec a a.worker_image a.worker_wall input) input

  unfoldable pub identify_activity : SubmissionInput → Result ActivityError EngineReport
  identify_activity input = run_engine (light_spec a a.ident_image a.ident_wall input) input

  unfoldable pub detonate_activity : SubmissionInput → Result ActivityError EngineReport
  detonate_activity input =
      run_engine
        (heavy_spec a a.detonate_image a.detonate_wall a.detonate_mem_bytes a.detonate_scratch
          input)
        input

  unfoldable pub capa_activity : SubmissionInput → Result ActivityError EngineReport
  capa_activity input =
      run_engine (heavy_spec a a.capa_image a.capa_wall a.capa_mem_bytes a.capa_scratch input) input

  -- Without an image the engine reports nothing.
  unfoldable pub die_activity : SubmissionInput → Result ActivityError EngineReport
  unfolding lit
  die_activity input =
      if length a.die_image == 0
      then ok (record empty_report { engine = lit "mal-static-die"; verdict = unknown })
      else run_engine (record (light_spec a a.die_image a.die_wall input) { env = scratch_env })
          input

  unfoldable pub floss_activity : SubmissionInput → Result ActivityError EngineReport
  floss_activity input =
      run_engine (heavy_spec a a.floss_image a.floss_wall a.floss_mem_bytes a.floss_scratch input)
        input
