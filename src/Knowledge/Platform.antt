-- ===== src/Knowledge/Platform.antt =====
-- What internal/knowledge takes from Go's library: the hash, and the functions of the package
-- strings that depend on Unicode tables.
use open_mal_lab.Common.{ℕ, ◌+◌, ◌-◌, ◌*◌, ◌/◌, ◌%◌, Str, [], ◌∷◌, ltb, if◌then◌else◌, take}

pub record Platform : Type 0 where
  pub sha256 : Str → Str
  pub trim_space : Str → Str
  pub to_lower : Str → Str
  pub to_upper : Str → Str

-- a lowercase hexadecimal digit
abbrev digit : ℕ → ℕ
digit n = if ltb n 10 then b'0' + n else b'a' + (n - 10)

-- hex.EncodeToString
unfoldable pub hex : Str → Str
unfolding digit
hex [] = []
hex (b ∷ s) = digit (b / 16 % 16) ∷ digit (b % 16) ∷ hex s

-- binary.LittleEndian.Uint64, of at most eight bytes
unfoldable pub little_endian : Str → ℕ
little_endian [] = 0
little_endian (b ∷ s) = b + 256 * little_endian s

-- hex.EncodeToString(sum[:12])
unfoldable pub short_sum : Platform → Str → Str
unfolding hex
short_sum go s = hex (take 12 (go.sha256 s))
