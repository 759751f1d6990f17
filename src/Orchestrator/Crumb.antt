-- ===== src/Orchestrator/Crumb.antt =====
-- services/mal-orchestrator/workflow.go: the breadcrumb of an extracted child.
pub mod Laws
use mathlib.Core.List.{reverse}
use open_mal_lab.Common.{
  ℕ, zero, suc, ◌+◌, Bool, true, false, not, ◌||◌, Str, List, [], ◌∷◌, ◌++◌, map, ltb, leb, ◌==◌,
  if◌then◌else◌, length, take, lit,
}
use open_mal_lab.Common.Utf8.{runes, encode, rune_start}

abbrev pub max_crumb_segment : ℕ
max_crumb_segment = 256

abbrev pub max_crumb_path : ℕ
max_crumb_path = 1024

-- The function that `crumb` maps over the runes of a name.
abbrev pub mask : ℕ → ℕ
mask r = if ltb r 0x20 || r == 0x7F then b'.' else r

-- strings.Map
unfoldable pub map_runes : (ℕ → ℕ) → Str → Str
unfolding runes encode
map_runes f s = encode (map f (runes s))

-- The loop of `clampBytes`, over the bytes with the last one first.
unfoldable pub trim_back : Str → Str
trim_back [] = []
trim_back (b ∷ s) = if rune_start b then b ∷ s else trim_back s

unfoldable pub clamp_bytes : Str → ℕ → Str
unfolding trim_back lit
clamp_bytes s n =
    if leb (length s) n then s else reverse (trim_back (reverse (take n s))) ++ lit "~"

abbrev is_empty : Str → Bool
is_empty [] = true
is_empty (b ∷ s) = false

unfoldable pub crumb : Str → Str → Str
unfolding map_runes clamp_bytes lit
crumb parent name =
    let segment = clamp_bytes (map_runes mask name) max_crumb_segment in
    if is_empty parent then segment else clamp_bytes (parent ++ lit "!" ++ segment) max_crumb_path
