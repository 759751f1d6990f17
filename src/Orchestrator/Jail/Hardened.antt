-- ===== src/Orchestrator/Jail/Hardened.antt =====
-- services/mal-orchestrator/jail.go: the posture of the containers.
use open_mal_lab.Common.{
  ℕ, ◌≡◌, ◌≢◌, ◌<◌, true, false, not, ◌==◌, Str, List, [], ◌∷◌, ◌++◌, All, lit, length,
}
use open_mal_lab.Orchestrator.Jail.{Config, HostConfig, JailSpec, scratch_size_matches}

-- The size of the scratch mount: the one asked for if the pattern admits it, and 64m otherwise.
abbrev pub IsScratchSize : JailSpec → Str → Type 0
IsScratchSize spec size =
    (scratch_size_matches spec.scratch_size ≡ true → size ≡ spec.scratch_size)
    × (scratch_size_matches spec.scratch_size ≡ false → size ≡ lit "64m")

-- The option list of the scratch mount: its fixed options, and the size, which has no comma.
abbrev pub IsScratch : JailSpec → Str → Type 0
IsScratch spec options =
    (size : Str) × (options ≡ lit "rw,noexec,nosuid,nodev,size=" ++ size)
    × IsScratchSize spec size
    × All (λ (b : ℕ). b ≢ b',') size

-- The boundary that no engine's settings may loosen, on the side of the host: every field of the
-- configuration.
pub record IsConfined (spec : JailSpec) (hc : HostConfig) : Type 0 where
  pub no_network : hc.network_mode ≡ lit "none"
  pub no_capabilities : hc.cap_drop ≡ lit "ALL" ∷ []
  pub no_escalation : hc.security_opt ≡ lit "no-new-privileges" ∷ lit "seccomp=builtin" ∷ []
  pub read_only : hc.readonly_rootfs ≡ true
  pub scratch_only :
      (options : Str) × (hc.tmpfs ≡ (lit "/scratch", options) ∷ []) × IsScratch spec options
  pub no_log : hc.log_type ≡ lit "none"
  pub memory_capped :
      (spec.memory_bytes ≡ 0 → hc.memory ≡ 536_870_912)
      × (0 < spec.memory_bytes → hc.memory ≡ spec.memory_bytes)
  pub no_swap : hc.memory_swap ≡ hc.memory
  pub limited : (hc.pids_limit ≡ 128) × (hc.nano_cpus ≡ 1_000_000_000)
  pub private : (hc.cgroupns_mode ≡ lit "private") × (hc.ipc_mode ≡ lit "private")
  pub mounts : hc.mounts ≡ spec.mounts

-- The label that the reaper looks for, and the submission's if there is one.
abbrev pub labels_for : Str → List (Str × Str)
labels_for [] = (lit "com.openmallab.jailed", lit "1") ∷ []
labels_for (b ∷ id) =
    (lit "com.openmallab.jailed", lit "1") ∷ (lit "com.openmallab.submission", b ∷ id) ∷ []

-- And on the side of the container: nobody, with no environment but the engine's own, and with
-- standard input open exactly if there is input.
pub record IsUnprivileged (spec : JailSpec) (cfg : Config) : Type 0 where
  pub image : cfg.image ≡ spec.image
  pub user : cfg.user ≡ lit "65534:65534"
  pub env : cfg.env ≡ spec.env
  pub labelled : cfg.labels ≡ labels_for spec.submission_id
  pub input :
      (cfg.open_stdin ≡ not (length spec.stdin == 0))
      × (cfg.stdin_once ≡ not (length spec.stdin == 0))

module _ (spec : JailSpec) where
  -- The memory limit that a container gets.
  abbrev IsMemory : ℕ → Type 0
  IsMemory memory =
      (spec.memory_bytes ≡ 0 → memory ≡ 536_870_912)
      × (0 < spec.memory_bytes → memory ≡ spec.memory_bytes)
