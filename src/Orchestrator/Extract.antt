-- ===== src/Orchestrator/Extract.antt =====
-- services/mal-orchestrator/activity.go: the extraction, and the ingest of its children into the
-- vault. The bytes that a worker staged, and the failures of the file system, are parameters.
pub mod Vault
pub mod Accounted
use open_mal_lab.Common.{
  ℕ, ◌+◌, ◌≤◌, Bool, true, false, not, Str, List, [], ◌∷◌, ◌++◌, Option, none, some, ltb, leb,
  if◌then◌else◌, length, take, lit, str_eq,
}
use open_mal_lab.Common.Assoc.{lookup, insert}
use open_mal_lab.Common.Result.{Result, ok, err, ◌>>=◌, ◌>>◌, guard}
use open_mal_lab.Knowledge.Platform.{Platform, hex}
use open_mal_lab.Broker.{Report, child_sha_matches}
use open_mal_lab.Broker as Broker
use open_mal_lab.Pipeline.Verdict.{Verdict, suspicious, join}
use open_mal_lab.Pipeline.Confidence.{low}
use open_mal_lab.Pipeline.Types.{SubmissionInput, Finding, Child, EngineReport}
use open_mal_lab.Orchestrator.Workflow.{empty_report, note}
use open_mal_lab.Orchestrator.Jail.{Docker, sample_mount, out_mount}
use open_mal_lab.Orchestrator.Activity.{
  Analyzer, ActivityError, bad_input, nonce, staging_dir, staging_chown, Decode,
  run_worker_through_broker, map_report, light_spec,
}

-- 128 << 20
abbrev pub max_ingest_bytes : ℕ
max_ingest_bytes = 134_217_728

-- 512 << 20
abbrev pub max_ingest_total_bytes : ℕ
max_ingest_total_bytes = 536_870_912

-- A staged file as `ingestChild` meets it: what Lstat says, the bytes that the open reads if it
-- succeeds, which may be others than those that Lstat measured, and whether the temporary file is
-- made, the copy is free of errors, and the rename works.
pub record Staged : Type 0 where
  pub is_regular : Bool
  pub lstat_size : ℕ
  pub content : Option Str
  pub temp_made : Bool
  pub copied : Bool
  pub renamed : Bool

-- The staging directory of one run; `none` is an error of Lstat.
abbrev pub Stage : Type 0
Stage = Str → Option Staged

-- The vault's entries, by name; temporary files are left out, since each path of `ingestChild`
-- removes or renames its own.
abbrev pub Vault : Type 0
Vault = List (Str × Str)

pub data IngestError : Type 0 where
  not_hex stat_child not_regular over_cap open_child vault_temp copy_child : IngestError
  over_cap_streamed hash_mismatch vault_rename : IngestError

unfoldable pub or_missing : {A : Type 0} → IngestError → Option A → Result IngestError A
or_missing e none = err e
or_missing e (some a) = ok a

-- What the copy into the temporary file reads: the checks from Lstat to the comparison of the hash.
unfoldable pub read_child : Platform → Stage → Str → Result IngestError (Staged × Str)
unfolding or_missing
read_child go stage claimed = do
  guard (child_sha_matches claimed) not_hex
  info ← or_missing stat_child (stage claimed)
  guard info.is_regular not_regular
  guard (leb info.lstat_size max_ingest_bytes) over_cap
  bytes ← or_missing open_child info.content
  guard info.temp_made vault_temp
  guard info.copied copy_child
  guard (leb (length (take (max_ingest_bytes + 1) bytes)) max_ingest_bytes) over_cap_streamed
  guard (str_eq (hex (go.sha256 (take (max_ingest_bytes + 1) bytes))) claimed) hash_mismatch
  ok (info, take (max_ingest_bytes + 1) bytes)

-- The end of `ingestChild`: a hash that the vault has is not written again.
unfoldable pub place_child : Vault → Str → Staged × Str → Option Str → Result IngestError ℕ × Vault
place_child vault sum (info, bytes) (some old) = (ok (length bytes), vault)
place_child vault sum (info, bytes) none =
    if info.renamed then (ok (length bytes), insert sum bytes vault) else (err vault_rename, vault)

unfoldable pub ingest_child : Platform → Stage → Vault → Str → Result IngestError ℕ × Vault
unfolding read_child place_child
ingest_child go stage vault claimed = elim (read_child go stage claimed) [
  | err e ↦ (err e, vault)
  | ok t ↦ place_child vault claimed t (lookup claimed vault)
]

-- The local variables of the loop over the broker's children.
pub record Ingest : Type 0 where
  pub rep : EngineReport
  pub verified : List Child
  pub total : ℕ
  pub vault : Vault

-- rep.Incomplete = true, a finding, and rep.Verdict = pipeline.Max(rep.Verdict, pipeline.Suspicious)
abbrev pub flag : Finding → EngineReport → EngineReport
flag f rep = record rep {
  incomplete = true;
  findings = rep.findings ++ f ∷ [];
  verdict = join rep.verdict suspicious;
}

unfoldable pub ingest_cap : Finding
unfolding lit
ingest_cap =
    note (lit "mal-extract") (lit "ingest-cap")
      (lit "aggregate extracted-child size cap reached; remaining children not ingested") suspicious
      []

unfoldable pub ingest_rejected : Finding
unfolding lit
ingest_rejected =
    note (lit "mal-extract") (lit "ingest-rejected")
      (lit "an extracted child failed re-hash and was dropped") suspicious []

unfoldable pub keep_child : Ingest → Broker.Child → Result IngestError ℕ × Vault → Ingest
keep_child st c (err e, vault) = record st { rep = flag ingest_rejected st.rep; vault = vault }
keep_child st c (ok size, vault) = record st {
  total = st.total + size;
  verified = st.verified ++ record { sha256 = c.sha256; size = size; name = c.name } ∷ [];
  vault = vault;
}

unfoldable pub ingest_children : Platform → Stage → Ingest → List Broker.Child → Ingest
unfolding ingest_child keep_child
ingest_children go stage st [] = st
ingest_children go stage st (c ∷ cs) =
    let rest =
      ingest_children go stage (keep_child st c (ingest_child go stage st.vault c.sha256)) cs in
    if leb max_ingest_total_bytes st.total then record st { rep = flag ingest_cap st.rep } else rest

-- From the broker's report to the activity's own.
unfoldable pub ingest_report : Platform → Stage → Vault → Report → EngineReport × Vault
unfolding ingest_children
ingest_report go stage vault br =
    let st =
      ingest_children go stage
        (record { rep = map_report br; verified = []; total = 0; vault = vault }) br.children in
    (record st.rep { children = st.verified; ingested_bytes = st.total }, st.vault)

-- What the orchestrator's own system calls give: sixteen random bytes, and whether the staging
-- directory is made and given to nobody.
pub record Host : Type 0 where
  pub random : Option Str
  pub made_dir : Bool
  pub chowned : Bool

unfoldable pub or_nonce : Option Str → Result ActivityError Str
or_nonce none = err nonce
or_nonce (some n) = ok n

-- The part of `ExtractActivity` before the ingest.
unfoldable pub run_extractor :
    Docker → Decode → Analyzer → Host → SubmissionInput → Result ActivityError Report
unfolding or_nonce hex
run_extractor docker decode a host input = do
  guard (child_sha_matches input.sha256) bad_input
  random ← or_nonce host.random
  guard host.made_dir staging_dir
  guard host.chowned staging_chown
  run_worker_through_broker docker decode a
      (record (light_spec a a.extract_image a.extract_wall input) {
        mounts =
            sample_mount a.vault_volume input.sha256 ∷ out_mount a.staging_vol (hex random) ∷ [];
      })
      input.sha256

-- `stage` is what the run left in its staging directory.
unfoldable pub extract_activity :
    Platform
    → Docker
    → Decode
    → Analyzer
    → Host
    → Stage
    → Vault
    → SubmissionInput
    → Result ActivityError EngineReport × Vault
unfolding run_extractor ingest_report
extract_activity go docker decode a host stage vault input =
    elim (run_extractor docker decode a host input) [
      | err e ↦ (err e, vault)
      | ok br ↦ let (rep, vault') = ingest_report go stage vault br in (ok rep, vault')
    ]
