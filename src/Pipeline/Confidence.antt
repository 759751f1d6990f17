-- ===== src/Pipeline/Confidence.antt =====
-- internal/pipeline/types.go: the confidence axis and the policy that assigns it.
use open_mal_lab.Common.{
  ℕ, Bool, true, false, Str, String, List, [], ◌∷◌, lit, is_lit, any, ◌&&◌, if◌then◌else◌,
}
use open_mal_lab.Pipeline.Verdict.{Verdict, suspicious, unknown, at_least}

pub data Confidence : Type 0 where
  low medium high : Confidence

-- The integer that `iota` gives a confidence.
abbrev pub level : Confidence → ℕ
level low = 0
level medium = 1
level high = 2

-- func (c Confidence) String
unfoldable pub to_string : Confidence → Str
unfolding lit
to_string high = lit "HIGH"
to_string medium = lit "MEDIUM"
to_string low = lit "LOW"

unfoldable pub parse_confidence : Str → Confidence × Bool
parse_confidence s =
    if is_lit s "LOW"
    then (low, true)
    else if is_lit s "MEDIUM"
    then (medium, true)
    else if is_lit s "HIGH"
    then (high, true)
    else (low, false)

-- The finding types of the `switch` in `ConfidenceFor`: gaps and floors.
abbrev gap_types : List String
gap_types =
    "error" ∷ "recursion-cap" ∷ "ingest-rejected" ∷ "extraction-cap-hit" ∷ "decompression-bomb"
    ∷ "high-compression-ratio" ∷ "entry-too-large" ∷ "entry-count-cap" ∷ "skipped-symlink"
    ∷ "skipped-link" ∷ "skipped-special" ∷ "path-traversal-name" ∷ "entry-truncated"
    ∷ "entry-unreadable" ∷ "extraction-error" ∷ "findings-cap-hit" ∷ "detonation-timeout" ∷ []

unfoldable pub is_gap : Str → Bool
is_gap finding_type = any (is_lit finding_type) gap_types

-- func ConfidenceFor
unfoldable pub confidence_for : Str → Str → Verdict → Confidence
confidence_for engine finding_type v =
    if is_gap finding_type
    then low
    else if is_lit engine "mal-static-yara" && is_lit finding_type "yara"
    then high
    else if is_lit engine "mal-capa" && is_lit finding_type "capability" && at_least v suspicious
    then medium
    else if is_lit engine "mal-detonate" && at_least v suspicious
    then medium
    else if at_least unknown v
    then low
    else medium
