-- ===== src/Tests/Activity.antt =====
-- The theorems on the jails and the activities, at concrete inputs.
use open_mal_lab.Common.{
  ◌+◌, ◌≤◌, ◌≡◌, refl, ◌⊎◌, Bool, true, false, Str, [], ◌∷◌, Option, none, some, lit, str_eq,
  replicate, ltb, All, length, take,
}
use open_mal_lab.Common.Result.{ok}
use open_mal_lab.Common.Assoc.{lookup, insert}
use open_mal_lab.Knowledge.Platform.{hex}
use open_mal_lab.Broker.{Report, Child, child_sha_matches, is_hex}
use open_mal_lab.Broker as Broker
use open_mal_lab.Broker.Accepts.{IsVerdict, IsGood}
use open_mal_lab.Pipeline.Verdict.{to_string}
use open_mal_lab.Pipeline.Types.{SubmissionInput}
use open_mal_lab.Pipeline.Types as Types
use open_mal_lab.Orchestrator.Jail.{
  JailSpec, Docker, exited, run_jailed, captured, write, write_all, new_buffer, sample_mount,
}
use open_mal_lab.Orchestrator.Jail.Capture.{concat, write_all_lem}
use open_mal_lab.Orchestrator.Activity.{Analyzer, Decode, map_report, run_worker_through_broker}
use open_mal_lab.Orchestrator.Activity.Decoded.{AllSay, map_report_lem}
use open_mal_lab.Orchestrator.Extract.{
  max_ingest_bytes, max_ingest_total_bytes, Staged, Stage, Host, ingest_report, extract_activity,
  ingest_children, ingest_child, read_child, place_child, keep_child, or_missing, run_extractor,
  or_nonce,
}
use open_mal_lab.Orchestrator.Extract.Vault.{IsAddressed, Extends, IsKept, extract-IsKept}
use open_mal_lab.Orchestrator.Extract.Accounted.{
  IsFlagged, labels, claimed_labels, total_size, ingest_report_lem,
}
use open_mal_lab.Tests.Samples.{platform, submission}

-- Three writes, of which the second overflows the buffer.
write_all_lem_example : write_all (new_buffer 5) (lit "abc" ∷ lit "defg" ∷ lit "h" ∷ []) ≡ record {
  buf = take 5 (concat (lit "abc" ∷ lit "defg" ∷ lit "h" ∷ []));
  max = 5;
  truncated = ltb 5 (length (concat (lit "abc" ∷ lit "defg" ∷ lit "h" ∷ [])));
}
write_all_lem_example = write_all_lem 5 (lit "abc" ∷ lit "defg" ∷ lit "h" ∷ [])

-- A scratch size that would add an option.
abbrev spec : JailSpec
spec = record {
  image = lit "capa";
  mounts = sample_mount (lit "vault") (lit "aa") ∷ [];
  stdin = [];
  wall_clock = 10;
  submission_id = lit "s1";
  env = lit "HOME=/scratch" ∷ [];
  memory_bytes = 4_000_000_000;
  scratch_size = lit "256m,exec";
}

-- A child whose bytes are their own hash, as the hash of the tests has it.
abbrev child_bytes : Str
child_bytes = replicate 32 b'a'

child_hash : Str
unfolding hex
child_hash = hex child_bytes

abbrev broker_report : Report
broker_report = record {
  engine = lit "mal-extract";
  findings =
      record {
        engine = lit "mal-extract";
        type = lit "x";
        detail = [];
        attck = [];
        verdict = lit "MALICIOUS";
      }
      ∷ [];
  children = record { sha256 = child_hash; size = 2; name = lit "a" } ∷ [];
  verdict = lit "weird";
  incomplete = false;
}

map_report_lem_example :
    (IsGood broker_report
      → (to_string (map_report broker_report).verdict ≡ broker_report.verdict)
        × ((map_report broker_report).incomplete ≡ broker_report.incomplete)
        × AllSay broker_report.findings (map_report broker_report).findings)
    × ((map_report broker_report).incomplete ≡ false
        → (broker_report.incomplete ≡ false)
          × IsVerdict broker_report.verdict
          × All (λ (f : Broker.Finding). IsVerdict f.verdict) broker_report.findings)
map_report_lem_example = map_report_lem broker_report

abbrev staged : Bool → Option Staged
staged false = none
staged true = some (record {
  is_regular = true;
  lstat_size = 32;
  content = some child_bytes;
  temp_made = true;
  copied = true;
  renamed = true;
})

abbrev staging : Stage
staging s = staged (str_eq s child_hash)

-- The child is kept, with the size of its bytes instead of the size that the worker claims.
ingested :
    (ingest_report platform staging [] broker_report).0.children
    ≡ record { sha256 = child_hash; size = 32; name = lit "a" } ∷ []
unfolding ingest_report ingest_children ingest_child read_child place_child keep_child or_missing
    child_sha_matches is_hex hex child_hash str_eq lookup insert lit map_report
ingested = refl

ingest_report_lem_example :
    (((labels (ingest_report platform staging [] broker_report).0.children
          ≡ claimed_labels broker_report.children)
        × ((ingest_report platform staging [] broker_report).0 ≡ record (map_report broker_report) {
          children = (ingest_report platform staging [] broker_report).0.children;
          ingested_bytes = (ingest_report platform staging [] broker_report).0.ingested_bytes;
        }))
      ⊎ IsFlagged (ingest_report platform staging [] broker_report).0)
    × ((ingest_report platform staging [] broker_report).0.ingested_bytes
        ≡ total_size (ingest_report platform staging [] broker_report).0.children)
ingest_report_lem_example = ingest_report_lem platform staging [] broker_report

abbrev analyzer : Analyzer
analyzer = record {
  vault_volume = lit "vault";
  staging_vol = lit "staging";
  worker_image = lit "yara";
  ident_image = lit "ident";
  extract_image = lit "extract";
  capa_image = lit "capa";
  floss_image = lit "floss";
  broker_image = lit "broker";
  worker_wall = 1;
  ident_wall = 1;
  extract_wall = 1;
  capa_wall = 1;
  floss_wall = 1;
  broker_wall = 1;
  capa_mem_bytes = 0;
  capa_scratch = [];
  floss_mem_bytes = 0;
  floss_scratch = [];
  detonate_image = lit "detonate";
  detonate_wall = 1;
  detonate_mem_bytes = 0;
  detonate_scratch = [];
  die_image = [];
  die_wall = 1;
}

-- Each container ends well, with a few bytes of output.
abbrev docker : Docker
docker cfg hc stdin wall = exited 0 (lit "{}" ∷ []) []

abbrev decode : Decode
decode s = some broker_report

abbrev host : Host
host = record { random = some (lit "nonce"); made_dir = true; chowned = true }

abbrev archive : SubmissionInput
archive = record submission { sha256 = child_hash }

-- The run succeeds.
extracted :
    (extract_activity platform docker decode analyzer host staging [] archive).0
    ≡ ok (ingest_report platform staging [] broker_report).0
unfolding extract_activity run_extractor or_nonce child_sha_matches hex child_hash lit
    run_worker_through_broker run_jailed captured write_all write
extracted = refl

extract-IsKept_example :
    Extends platform [] (extract_activity platform docker decode analyzer host staging [] archive).1
    × (IsAddressed platform []
        → IsAddressed platform
            (extract_activity platform docker decode analyzer host staging [] archive).1)
    × ((rep : Types.EngineReport)
        → (extract_activity platform docker decode analyzer host staging [] archive).0 ≡ ok rep
        → All
            (λ (c : Types.Child).
              IsKept platform staging
                (extract_activity platform docker decode analyzer host staging [] archive).1
                c.sha256
                c.size)
            rep.children
          × (rep.ingested_bytes ≤ max_ingest_total_bytes + max_ingest_bytes))
extract-IsKept_example = extract-IsKept platform docker decode analyzer host staging [] archive
