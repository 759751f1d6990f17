-- ===== src/Broker.antt =====
-- services/mal-broker/validate.go: the trust boundary behind every jailed worker. The package
-- encoding/json is the parameter `Codec`.
pub mod Accepts
use open_mal_lab.Common.{
  ℕ, zero, suc, ◌+◌, Bool, true, false, not, ◌&&◌, ◌||◌, Str, List, [], ◌∷◌, ◌++◌, Option, none,
  some, ltb, leb, ◌==◌, if◌then◌else◌, length, take, all, lit, is_lit,
}
use open_mal_lab.Common.Utf8.{within}
use open_mal_lab.Common.Result.{Result, ok, err, ◌>>=◌, ◌>>◌, guard}

-- 1 << 20
abbrev pub max_input_bytes : ℕ
max_input_bytes = 1_048_576

abbrev pub max_findings : ℕ
max_findings = 1000

abbrev pub max_children : ℕ
max_children = 1000

abbrev pub max_string_len : ℕ
max_string_len = 8192

pub record Finding : Type 0 where
  pub engine : Str
  pub type : Str
  pub detail : Str
  pub attck : Str
  pub verdict : Str

pub record Child : Type 0 where
  pub sha256 : Str
  pub size : ℕ
  pub name : Str

pub record Report : Type 0 where
  pub engine : Str
  pub findings : List Finding
  pub children : List Child
  pub verdict : Str
  pub incomplete : Bool

-- The errors that `validate` returns.
pub data Reject : Type 0 where
  decode trailing_data oversize bad_verdict too_many_findings : Reject
  finding_verdict : ℕ → Reject
  string_too_long too_many_children : Reject
  child_sha : ℕ → Reject
  encode output_oversize : Reject

-- `decode` is a strict Decode of one report: the report and the bytes behind it. `at_eof` tells
-- whether a second Decode of those bytes returns io.EOF. `encode` is Encode without HTML escapes.
pub record Codec : Type 0 where
  pub decode : Str → Option (Report × Str)
  pub at_eof : Str → Bool
  pub encode : Report → Option Str

unfoldable pub valid_verdict : Str → Bool
valid_verdict v =
    is_lit v "BENIGN" || is_lit v "UNKNOWN" || is_lit v "SUSPICIOUS" || is_lit v "MALICIOUS"

-- a byte in [a-f0-9]
abbrev pub is_hex : ℕ → Bool
is_hex b = within b'a' b'f' b || within b'0' b'9' b

-- childSHA: ^[a-f0-9]{64}$
unfoldable pub child_sha_matches : Str → Bool
child_sha_matches s = length s == 64 && all is_hex s

unfoldable pub check_str : Str → Result Reject (Unit {0})
check_str s = guard (leb (length s) max_string_len) string_too_long

unfoldable pub check_finding : ℕ → Finding → Result Reject (Unit {0})
check_finding i f = do
  guard (valid_verdict f.verdict) (finding_verdict i)
  check_str f.engine
  check_str f.type
  check_str f.detail
  check_str f.attck

unfoldable pub check_findings : ℕ → List Finding → Result Reject (Unit {0})
check_findings i [] = ok tt
check_findings i (f ∷ fs) = do check_finding i f; check_findings (i + 1) fs

unfoldable pub check_child : ℕ → Child → Result Reject (Unit {0})
check_child i c = do guard (child_sha_matches c.sha256) (child_sha i); check_str c.name

unfoldable pub check_children : ℕ → List Child → Result Reject (Unit {0})
check_children i [] = ok tt
check_children i (c ∷ cs) = do check_child i c; check_children (i + 1) cs

unfoldable pub check_report : Report → Result Reject (Unit {0})
check_report rep = do
  guard (valid_verdict rep.verdict) bad_verdict
  guard (leb (length rep.findings) max_findings) too_many_findings
  check_str rep.engine
  check_findings 0 rep.findings
  guard (leb (length rep.children) max_children) too_many_children
  check_children 0 rep.children

abbrev pub or_reject : {A : Type 0} → Reject → Option A → Result Reject A
or_reject e none = err e
or_reject e (some a) = ok a

-- The reader stops one byte past the cap. When the second Decode has met io.EOF, the decoder has
-- read all that the reader gives, so the count of bytes read is the length of `input`.
unfoldable pub validate : Codec → Str → Result Reject Str
validate json stream = do
  let input = take (max_input_bytes + 1) stream
  (rep, rest) ← or_reject decode (json.decode input)
  guard (json.at_eof rest) trailing_data
  guard (leb (length input) max_input_bytes) oversize
  check_report rep
  buf ← or_reject encode (json.encode rep)
  guard (leb (length buf) max_input_bytes) output_oversize
  ok buf
