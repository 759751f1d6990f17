-- ===== src/Pipeline/Json/RoundTrip.antt =====
-- internal/pipeline/types.go: the words of the two axes, and their JSON read back.
use open_mal_lab.Common.{true, false, Str, some, ◌≡◌, refl, ◌↔◌, arith, str_eq_iff, str_eq, lit}
use open_mal_lab.Common.Utf8.{valid_string}
use open_mal_lab.Pipeline.Verdict
use open_mal_lab.Pipeline.Verdict.{Verdict, benign, unknown, suspicious, malicious, parse_verdict}
use open_mal_lab.Pipeline.Confidence
use open_mal_lab.Pipeline.Confidence.{Confidence, low, medium, high, parse_confidence}
use open_mal_lab.Pipeline.Json.{
  Codec, marshal_verdict, unmarshal_verdict, marshal_confidence, unmarshal_confidence,
}

parse-to_string : (v : Verdict) → parse_verdict (Verdict.to_string v) ≡ (v, true)
unfolding parse_verdict Verdict.to_string str_eq
parse-to_string benign = refl
parse-to_string unknown = refl
parse-to_string suspicious = refl
parse-to_string malicious = refl

parse_confidence-to_string :
    (c : Confidence) → parse_confidence (Confidence.to_string c) ≡ (c, true)
unfolding parse_confidence Confidence.to_string str_eq
parse_confidence-to_string low = refl
parse_confidence-to_string medium = refl
parse_confidence-to_string high = refl

parse_eq : (s : Str) (v : Verdict) → parse_verdict s ≡ (v, true) → s ≡ Verdict.to_string v
unfolding parse_verdict Verdict.to_string
parse_eq s v h = ground (
  arith,
  str_eq_iff s (lit "BENIGN"),
  str_eq_iff s (lit "UNKNOWN"),
  str_eq_iff s (lit "SUSPICIOUS"),
  str_eq_iff s (lit "MALICIOUS"),
)

-- A string parses as the verdict `v` exactly when it is the word for `v`; every other string parses
-- as SUSPICIOUS and not ok.
pub parse_verdict_exact :
    (s : Str)
    → ((v : Verdict) → (parse_verdict s ≡ (v, true)) ↔ (s ≡ Verdict.to_string v))
      × ((parse_verdict s).1 ≡ false → (parse_verdict s).0 ≡ suspicious)
parse_verdict_exact s =
    (λ v. (parse_eq s v, λ e. rw e (parse-to_string v)), unfold parse_verdict in λ h. ground arith)

to_string-valid : (v : Verdict) → valid_string (Verdict.to_string v) ≡ true
unfolding valid_string Verdict.to_string lit
to_string-valid benign = refl
to_string-valid unknown = refl
to_string-valid suspicious = refl
to_string-valid malicious = refl

confidence-valid : (c : Confidence) → valid_string (Confidence.to_string c) ≡ true
unfolding valid_string Confidence.to_string lit
confidence-valid low = refl
confidence-valid medium = refl
confidence-valid high = refl

-- encoding/json replaces what is not UTF-8, and reads back every other string as it was.
module _ (json : Codec)
    (string_law : (s : Str) → valid_string s ≡ true → json.as_string (json.quote s) ≡ some s) where
  -- If encoding/json reads back the strings of valid UTF-8 that it quotes, a verdict and a
  -- confidence that are marshalled are unmarshalled to themselves.
  pub unmarshal-marshal :
      (v : Verdict) (c : Confidence)
      → (unmarshal_verdict json (marshal_verdict json v) ≡ some v)
        × (unmarshal_confidence json (marshal_confidence json c) ≡ some c)
  unfolding unmarshal_verdict marshal_verdict unmarshal_confidence marshal_confidence
  unmarshal-marshal v c = (
    rw (string_law (Verdict.to_string v) (to_string-valid v), unmarshal_verdict, parse-to_string v),
    rw (
      string_law (Confidence.to_string c) (confidence-valid c),
      unmarshal_confidence,
      parse_confidence-to_string c,
    ),
  )
