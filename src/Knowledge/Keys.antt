-- ===== src/Knowledge/Keys.antt =====
-- internal/knowledge/registry.go: the kinds of facts, and the keys that each kind accepts.
use open_mal_lab.Common.{
  ℕ, Bool, true, false, ◌&&◌, ◌||◌, Str, String, List, [], ◌∷◌, ◌++◌, ltb, ◌==◌, if◌then◌else◌,
  length, all, any, lit, is_lit,
}
use open_mal_lab.Common.Utf8.{within, has_control}
use open_mal_lab.Knowledge.Platform.{Platform, short_sum}

-- A `Kind` is a string; only these are known.
abbrev known_kinds : List String
known_kinds =
    "family" ∷ "yara-rule" ∷ "attck" ∷ "mbc" ∷ "c2" ∷ "packer" ∷ "mutex" ∷ "imphash"
    ∷ "authentihash" ∷ "sha256" ∷ "cert-thumbprint" ∷ []

unfoldable pub known_kind : Str → Bool
known_kind kind = any (is_lit kind) known_kinds

abbrev pub max_key_len : ℕ
max_key_len = 512

-- strings.ReplaceAll(key, ":", "")
unfoldable pub drop_colons : Str → Str
drop_colons [] = []
drop_colons (b ∷ s) = let rest = drop_colons s in if b == b':' then rest else b ∷ rest

unfoldable pub normalize_key : Platform → Str → Str → Str
unfolding drop_colons
normalize_key go kind key =
    let trimmed = go.trim_space key in
    if is_lit kind "imphash"
      || is_lit kind "authentihash"
      || is_lit kind "sha256"
      || is_lit kind "cert-thumbprint"
    then go.to_lower (drop_colons trimmed)
    else if is_lit kind "attck" || is_lit kind "mbc"
    then go.to_upper trimmed
    else if is_lit kind "family" || is_lit kind "packer"
    then go.to_lower trimmed
    else trimmed

abbrev is_hex : ℕ → Bool
is_hex b = within b'0' b'9' b || within b'a' b'f' b

-- ^[0-9a-f]{n}$
unfoldable pub is_hex_string : ℕ → Str → Bool
is_hex_string n s = length s == n && all is_hex s

abbrev is_digit : ℕ → Bool
is_digit = within b'0' b'9'

abbrev is_upper : ℕ → Bool
is_upper = within b'A' b'Z'

-- (\.\d{3})?$
sub_technique : Str → Bool
sub_technique [] = true
sub_technique (p ∷ a ∷ b ∷ c ∷ []) = p == b'.' && is_digit a && is_digit b && is_digit c
sub_technique _ = false

-- \d{4}(\.\d{3})?$
technique_number : Str → Bool
unfolding sub_technique
technique_number (a ∷ b ∷ c ∷ d ∷ s) =
    is_digit a && is_digit b && is_digit c && is_digit d && sub_technique s
technique_number _ = false

-- ^TA?\d{4}(\.\d{3})?$
unfoldable pub is_attck : Str → Bool
unfolding technique_number
is_attck [] = false
is_attck (t ∷ []) = false
is_attck (t ∷ a ∷ s) = t == b'T' && (technique_number (a ∷ s) || a == b'A' && technique_number s)

-- ^[A-Z]{1,2}\d{4}(\.\d{3})?$
unfoldable pub is_mbc : Str → Bool
unfolding technique_number
is_mbc [] = false
is_mbc (t ∷ []) = false
is_mbc (t ∷ a ∷ s) = is_upper t && (technique_number (a ∷ s) || is_upper a && technique_number s)

unfoldable pub valid_format : Str → Str → Bool
unfolding is_hex_string is_attck is_mbc
valid_format kind key =
    if is_lit kind "imphash"
    then is_hex_string 32 key
    else if is_lit kind "authentihash" || is_lit kind "sha256"
    then is_hex_string 64 key
    else if is_lit kind "cert-thumbprint"
    then is_hex_string 40 key
    else if is_lit kind "attck"
    then is_attck key
    else if is_lit kind "mbc"
    then is_mbc key
    else true

unfoldable pub valid_key : Str → Str → Bool
unfolding valid_format
valid_key kind key =
    if length key == 0 || ltb max_key_len (length key) || has_control key
    then false
    else valid_format kind key

unfoldable pub fact_id : Platform → Str → Str → Str
unfolding short_sum
fact_id go kind key = lit "kf_" ++ short_sum go (kind ++ 0 ∷ key)
