-- ===== src/Tests/Pipeline.antt =====
-- The theorems on scores and on the JSON forms, at concrete inputs.
use mathlib.Core.List.{Perm}
use mathlib.Core.List.Perm
use open_mal_lab.Common.{
  ℕ, zero, suc, ◌≤◌, ◌<◌, ◌≡◌, ◌↔◌, refl, ap, true, false, Str, [], ◌∷◌, Option, none, some, lit,
  All, arith, replicate, Bool, ◌||◌, ◌==◌, if◌then◌else◌, length, Bool-cases, inl, inr,
}
use open_mal_lab.Common.Utf8.{valid_string}
use open_mal_lab.Pipeline.Verdict
use open_mal_lab.Pipeline.Verdict.{Verdict, suspicious, malicious, unknown, parse_verdict}
use open_mal_lab.Pipeline.Confidence.{low, medium, high}
use open_mal_lab.Pipeline.Types.{Finding}
use open_mal_lab.Pipeline.Score.{score_findings}
use open_mal_lab.Pipeline.Score.Order.{score-perm}
use open_mal_lab.Pipeline.Score.Growth.{score-insert_le}
use open_mal_lab.Pipeline.Score.Floors.{IsFloor, floors_outrank_detection}
use open_mal_lab.Pipeline.Json.{
  Codec, marshal_verdict, marshal_confidence, unmarshal_verdict, unmarshal_confidence,
}
use open_mal_lab.Pipeline.Json.RoundTrip.{parse_verdict_exact, unmarshal-marshal}
use open_mal_lab.Tests.Samples.{finding}

abbrev detection : Finding
detection = finding (lit "yara") malicious high

abbrev weak : Finding
weak = finding (lit "error") suspicious low

score-insert_le_example :
    ((score_findings (weak ∷ [])).0 ≤ (score_findings (weak ∷ detection ∷ [])).0)
    × ((score_findings (weak ∷ detection ∷ [])).0 ≤ 100)
score-insert_le_example = score-insert_le (weak ∷ []) [] detection

swapped : Perm (weak ∷ detection ∷ []) (detection ∷ weak ∷ [])
swapped = Perm.swap detection weak []

score-perm_example : score_findings (weak ∷ detection ∷ []) ≡ score_findings (detection ∷ weak ∷ [])
score-perm_example = score-perm (weak ∷ detection ∷ []) (detection ∷ weak ∷ []) swapped

-- JSON strings with the two escapes of the quotation mark and the backslash; a string that is not
-- valid UTF-8 is replaced as a whole.
abbrev escape : Str → Str
escape [] = b'"' ∷ []
escape (b ∷ s) = if b == b'"' || b == b'\\' then b'\\' ∷ b ∷ escape s else b ∷ escape s

abbrev behind : ℕ → Option Str → Option Str
behind b none = none
behind b (some s) = some (b ∷ s)

abbrev unescape : Bool → Str → Option Str
unescape escaped [] = none
unescape true (b ∷ s) = behind b (unescape false s)
unescape false (b ∷ s) =
    let plain = unescape false s in
    let special = unescape true s in
    if b == b'"'
    then (if length s == 0 then some [] else none)
    else if b == b'\\'
    then special
    else behind b plain

abbrev read_string : Str → Option Str
read_string [] = none
read_string (b ∷ s) = if b == b'"' then unescape false s else none

abbrev quoted : Codec
quoted = record {
  quote = λ s. b'"' ∷ escape (if valid_string s then s else 0xEF ∷ 0xBF ∷ 0xBD ∷ []);
  as_string = read_string;
  as_int = λ s. none;
}

unescape-escape : (s : Str) → unescape false (escape s) ≡ some s
unescape-escape [] = refl
unescape-escape (b ∷ s) = elim (Bool-cases (b == b'"' || b == b'\\')) [
  | inl special ↦ rw special (ap (behind b) (unescape-escape s))
  | inr plain ↦ rw plain (ground (arith, unescape-escape s))
]

quoted_law : (s : Str) → valid_string s ≡ true → quoted.as_string (quoted.quote s) ≡ some s
quoted_law s h = rw h (unescape-escape s)

unmarshal-marshal_example :
    (unmarshal_verdict quoted (marshal_verdict quoted malicious) ≡ some malicious)
    × (unmarshal_confidence quoted (marshal_confidence quoted medium) ≡ some medium)
unmarshal-marshal_example = unmarshal-marshal quoted quoted_law malicious medium

parse_verdict_exact_example :
    ((v : Verdict)
      → (parse_verdict (lit "Benign") ≡ (v, true)) ↔ (lit "Benign" ≡ Verdict.to_string v))
    × ((parse_verdict (lit "Benign")).1 ≡ false → (parse_verdict (lit "Benign")).0 ≡ suspicious)
parse_verdict_exact_example = parse_verdict_exact (lit "Benign")

abbrev strong : Finding
strong = finding (lit "yara") suspicious high

floors_IsFloor : (n : ℕ) → All IsFloor (replicate n weak)
floors_IsFloor zero = tt
floors_IsFloor (suc n) = ((refl, refl), floors_IsFloor n)

floors_outrank_detection_example :
    (score_findings (strong ∷ [])).0 < (score_findings (replicate 18 weak)).0
floors_outrank_detection_example =
    floors_outrank_detection strong (replicate 18 weak) refl refl (floors_IsFloor 18) (omega arith)
