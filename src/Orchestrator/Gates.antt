-- ===== src/Orchestrator/Gates.antt =====
-- services/mal-orchestrator/workflow.go: which engines an artifact is handed to, by what magika
-- identified.
use open_mal_lab.Common.{Bool, ◌&&◌, ◌||◌, Str, List, [], ◌∷◌, any, if◌then◌else◌, is_lit}
use open_mal_lab.Pipeline.Types.{Finding, EngineReport}

unfoldable pub file_type_from : List Finding → Str
file_type_from [] = []
file_type_from (f ∷ fs) = if is_lit f.type "file-type" then f.detail else file_type_from fs

unfoldable pub file_type_of : EngineReport → Str
unfolding file_type_from
file_type_of rep = file_type_from rep.findings

-- the map `executableTypes`
abbrev pub executable_type : Str → Bool
executable_type s = is_lit s "pebin" || is_lit s "elf" || is_lit s "macho" || is_lit s "coff"

unfoldable pub is_executable : EngineReport → Bool
is_executable rep =
    any
      (λ (f : Finding).
        is_lit f.type "file-type" && executable_type f.detail
        || is_lit f.type "file-type-group" && is_lit f.detail "executable")
      rep.findings

unfoldable pub is_pe : EngineReport → Bool
is_pe rep = any (λ (f : Finding). is_lit f.type "file-type" && is_lit f.detail "pebin") rep.findings

unfoldable pub is_elf : EngineReport → Bool
is_elf rep = any (λ (f : Finding). is_lit f.type "file-type" && is_lit f.detail "elf") rep.findings
