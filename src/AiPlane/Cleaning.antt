-- ===== src/AiPlane/Cleaning.antt =====
-- internal/aiplane/contract.go: the cleaning of text that a hostile file or the model has written.
-- The tables of the package unicode and the package regexp are the parameter `TextLibrary`.
use mathlib.Core.List.{reverse}
use open_mal_lab.Common.{
  ℕ, zero, suc, Bool, false, not, ◌&&◌, ◌||◌, Str, List, [], ◌∷◌, ◌++◌, leb, ◌==◌, if◌then◌else◌,
  length, take, lit,
}
use open_mal_lab.Common.Utf8.{runes, encode, is_control, valid_string, has_control}

-- `replace_all p r s` is regexp.MustCompile(p).ReplaceAllString(s, r).
pub record TextLibrary : Type 0 where
  pub format_char : ℕ → Bool
  pub variation_selector : ℕ → Bool
  pub default_ignorable : ℕ → Bool
  pub nonspacing_mark : ℕ → Bool
  pub enclosing_mark : ℕ → Bool
  pub replace_all : Str → Str → Str → Str

-- The runes that the loop of `defang` drops.
unfoldable pub is_dropped : TextLibrary → ℕ → Bool
is_dropped text r =
    is_control r
    || r == 0x2028
    || r == 0x2029
    || text.format_char r
    || text.variation_selector r
    || text.default_ignorable r
    || text.nonspacing_mark r
    || text.enclosing_mark r

unfoldable pub keep_runes : TextLibrary → List ℕ → List ℕ
unfolding is_dropped
keep_runes text [] = []
keep_runes text (r ∷ rs) =
    let rest = keep_runes text rs in if is_dropped text r then rest else r ∷ rest

abbrev slashes : Str → Bool
slashes (b ∷ c ∷ s) = b == b'/' && c == b'/'
slashes _ = false

-- strings.ReplaceAll(out, "://", "[://]"); `skip` counts the bytes of a match still to be passed.
unfoldable pub bracket_schemes : ℕ → Str → Str
bracket_schemes skip [] = []
bracket_schemes (suc skip) (a ∷ s) = bracket_schemes skip s
bracket_schemes zero (a ∷ s) =
    let hit = a == b':' && slashes s in
    let rest = bracket_schemes (if hit then 2 else 0) s in
    if hit then lit "[://]" ++ rest else a ∷ rest

unfoldable pub defang : TextLibrary → Str → Str
unfolding keep_runes bracket_schemes
defang text s =
    let inert = bracket_schemes 0 (encode (keep_runes text (runes s))) in
    let no_scheme =
      text.replace_all (lit "(?i)\\b(javascript|data|vbscript|file):") (lit "$1[:]") inert in
    text.replace_all (lit "(^|[^\\w:])//(\\w)") (lit "${1}[//]${2}") no_scheme

-- The loop of `clean`, over the bytes with the last one first.
unfoldable pub trim_invalid : Str → Str
trim_invalid [] = []
trim_invalid (b ∷ s) =
    let rest = trim_invalid s in if valid_string (reverse (b ∷ s)) then b ∷ s else rest

unfoldable pub clean : TextLibrary → Str → ℕ → Str
unfolding trim_invalid
clean text s max_bytes =
    let inert = defang text s in
    if leb (length inert) max_bytes
    then inert
    else reverse (trim_invalid (reverse (take max_bytes inert)))

unfoldable pub citation_token : Str → ℕ → Bool
citation_token s max_bytes =
    not (length s == 0) && leb (length s) max_bytes && valid_string s && not (has_control s)
