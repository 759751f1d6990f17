-- ===== src/Orchestrator/Jail.antt =====
-- services/mal-orchestrator/jail.go: the recipe of a jailed container, and the capture of its
-- output. The container engine is the parameter `Docker`.
pub mod Hardened
pub mod Capture
use open_mal_lab.Common.{
  ℕ, ◌+◌, ◌-◌, ◌*◌, Bool, true, false, not, ◌&&◌, ◌||◌, Str, List, [], ◌∷◌, ◌++◌, ltb, ◌==◌,
  if◌then◌else◌, length, take, map, lit,
}
use open_mal_lab.Common.Assoc.{insert}
use open_mal_lab.Common.Result.{Result, ok, err}
use open_mal_lab.Common.Utf8.{within}

-- 1 << 20
abbrev pub max_jail_output_bytes : ℕ
max_jail_output_bytes = 1_048_576

abbrev pub max_jail_stderr_bytes : ℕ
max_jail_stderr_bytes = 4096

pub record Mount : Type 0 where
  pub type : Str
  pub source : Str
  pub target : Str
  pub read_only : Bool
  pub subpath : Str

-- The fields of container.HostConfig that the source sets.
pub record HostConfig : Type 0 where
  pub network_mode : Str
  pub cap_drop : List Str
  pub security_opt : List Str
  pub readonly_rootfs : Bool
  pub tmpfs : List (Str × Str)
  pub log_type : Str
  pub memory : ℕ
  pub memory_swap : ℕ
  pub nano_cpus : ℕ
  pub pids_limit : ℕ
  pub cgroupns_mode : Str
  pub ipc_mode : Str
  pub mounts : List Mount

-- The fields of container.Config that the source sets.
pub record Config : Type 0 where
  pub image : Str
  pub user : Str
  pub env : List Str
  pub labels : List (Str × Str)
  pub open_stdin : Bool
  pub stdin_once : Bool

-- 512 << 20
abbrev default_memory : ℕ
default_memory = 536_870_912

unfoldable pub jailed_host_config : HostConfig
unfolding lit
jailed_host_config = record {
  network_mode = lit "none";
  cap_drop = lit "ALL" ∷ [];
  security_opt = lit "no-new-privileges" ∷ lit "seccomp=builtin" ∷ [];
  readonly_rootfs = true;
  tmpfs = (lit "/scratch", lit "rw,noexec,nosuid,nodev,size=64m") ∷ [];
  log_type = lit "none";
  memory = default_memory;
  memory_swap = default_memory;
  nano_cpus = 1_000_000_000;
  pids_limit = 128;
  cgroupns_mode = lit "private";
  ipc_mode = lit "private";
  mounts = [];
}

unfoldable pub jailed_config : Str → Config
unfolding lit
jailed_config image = record {
  image = image;
  user = lit "65534:65534";
  env = [];
  labels = (lit "com.openmallab.jailed", lit "1") ∷ [];
  open_stdin = false;
  stdin_once = false;
}

unfoldable pub sample_mount : Str → Str → Mount
unfolding lit
sample_mount volume sha = record {
  type = lit "volume";
  source = volume;
  target = lit "/in/sample";
  read_only = true;
  subpath = sha;
}

unfoldable pub out_mount : Str → Str → Mount
unfolding lit
out_mount volume subpath = record {
  type = lit "volume";
  source = volume;
  target = lit "/out";
  read_only = false;
  subpath = subpath;
}

pub record CappedBuffer : Type 0 where
  pub buf : Str
  pub max : ℕ
  pub truncated : Bool

-- The buffer after a Write, which always reports the whole of `p` as written.
unfoldable pub write : CappedBuffer → Str → CappedBuffer
write c p =
    let room = c.max - length c.buf in
    if ltb 0 room
    then (if ltb room (length p)
        then record c { buf = c.buf ++ take room p; truncated = true }
        else record c { buf = c.buf ++ p })
    else if ltb 0 (length p)
    then record c { truncated = true }
    else c

unfoldable pub write_all : CappedBuffer → List Str → CappedBuffer
unfolding write
write_all c [] = c
write_all c (p ∷ ps) = write_all (write c p) ps

-- A nil `stdin` is the empty list: the one caller that sets it passes a snapshot, which is nil when
-- it has no bytes. `memory_bytes` is an int64 in the source, and 0 stands for all that is not
-- positive. `wall_clock` counts nanoseconds.
pub record JailSpec : Type 0 where
  pub image : Str
  pub mounts : List Mount
  pub stdin : Str
  pub wall_clock : ℕ
  pub submission_id : Str
  pub env : List Str
  pub memory_bytes : ℕ
  pub scratch_size : Str

pub record JailResult : Type 0 where
  pub stdout : Str
  pub stderr : Str
  pub exit_code : ℕ
  pub stdout_truncated : Bool

abbrev is_digit : ℕ → Bool
is_digit = within b'0' b'9'

abbrev is_unit : ℕ → Bool
is_unit b = b == b'k' || b == b'K' || b == b'm' || b == b'M' || b == b'g' || b == b'G'

-- [0-9]*[kKmMgG]?$
unfoldable pub size_rest : Str → Bool
size_rest [] = true
size_rest (b ∷ []) = is_digit b || is_unit b
size_rest (b ∷ c ∷ s) = is_digit b && size_rest (c ∷ s)

-- scratchSizeRe: ^[0-9]+[kKmMgG]?$
unfoldable pub scratch_size_matches : Str → Bool
unfolding size_rest
scratch_size_matches [] = false
scratch_size_matches (b ∷ s) = is_digit b && size_rest s

unfoldable pub apply_overrides : Config → HostConfig → JailSpec → Config × HostConfig
unfolding scratch_size_matches
apply_overrides cfg hc spec =
    let hc1 =
      if ltb 0 spec.memory_bytes
      then record hc { memory = spec.memory_bytes; memory_swap = spec.memory_bytes }
      else hc in
    (
      record cfg { env = cfg.env ++ spec.env },
      if not (length spec.scratch_size == 0) && scratch_size_matches spec.scratch_size
          then record hc1 {
            tmpfs =
                insert (lit "/scratch") (lit "rw,noexec,nosuid,nodev,size=" ++ spec.scratch_size)
                  hc1.tmpfs;
          }
          else hc1,
    )

-- What `runJailed` hands to ContainerCreate.
unfoldable pub container_of : JailSpec → Config × HostConfig
unfolding apply_overrides jailed_config jailed_host_config lit
container_of spec =
    let cfg = jailed_config spec.image in
    let cfg1 =
      if length spec.stdin == 0 then cfg else record cfg { open_stdin = true; stdin_once = true } in
    let cfg2 = if length spec.submission_id == 0 then cfg1 else record cfg1 {
      labels = insert (lit "com.openmallab.submission") spec.submission_id cfg1.labels;
    } in
    apply_overrides cfg2 (record jailed_host_config { mounts = spec.mounts }) spec

-- How a run of a container ends, as the engine reports it: with its exit code, and the writes that
-- StdCopy made to standard output and to standard error by the time they are read.
pub data Outcome : Type 0 where
  create_failed attach_failed start_failed wait_failed killed : Outcome
  exited : ℕ → List Str → List Str → Outcome

-- The container, its input, and the wall clock, to the outcome of the run.
abbrev pub Docker : Type 0
Docker = Config → HostConfig → Str → ℕ → Outcome

pub data JailError : Type 0 where
  jail_create jail_attach jail_start jail_wait wall_clock_exceeded : JailError

abbrev pub new_buffer : ℕ → CappedBuffer
new_buffer max = record { buf = []; max = max; truncated = false }

unfoldable pub captured : Outcome → Result JailError JailResult
unfolding write_all
captured create_failed = err jail_create
captured attach_failed = err jail_attach
captured start_failed = err jail_start
captured wait_failed = err jail_wait
captured killed = err wall_clock_exceeded
captured (exited code out errs) =
    let stdout = write_all (new_buffer max_jail_output_bytes) out in
    let stderr = write_all (new_buffer max_jail_stderr_bytes) errs in
    ok (record {
      stdout = stdout.buf;
      stderr = stderr.buf;
      exit_code = code;
      stdout_truncated = stdout.truncated;
    })

unfoldable pub run_jailed : Docker → JailSpec → Result JailError JailResult
unfolding captured container_of
run_jailed docker spec =
    let (cfg, hc) = container_of spec in captured (docker cfg hc spec.stdin spec.wall_clock)

abbrev printable : ℕ → ℕ
printable c = if ltb c 0x20 || ltb 0x7e c then b'.' else c

unfoldable pub sanitize_for_log : Str → ℕ → Str
sanitize_for_log b max = map printable (take max b)
