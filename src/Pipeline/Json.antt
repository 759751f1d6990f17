-- ===== src/Pipeline/Json.antt =====
-- internal/pipeline/types.go: the JSON forms of a verdict and of a confidence. The package
-- encoding/json is the parameter: `quote` is Marshal of a string, the others Unmarshal.
pub mod RoundTrip
use open_mal_lab.Common.{
  ℕ, zero, suc, Bool, true, false, Str, Option, none, some, ltb, if◌then◌else◌,
}
use open_mal_lab.Common.Int.{ℤ, pos, negsuc}
use open_mal_lab.Pipeline.Verdict
use open_mal_lab.Pipeline.Verdict.{Verdict, benign, unknown, suspicious, malicious, parse_verdict}
use open_mal_lab.Pipeline.Confidence
use open_mal_lab.Pipeline.Confidence.{Confidence, low, medium, high, parse_confidence}

pub record Codec : Type 0 where
  pub quote : Str → Str
  pub as_string : Str → Option Str
  pub as_int : Str → Option ℤ

-- Verdict(i), inside the lattice
unfoldable pub verdict_of_int : ℤ → Option Verdict
verdict_of_int (pos zero) = some benign
verdict_of_int (pos (suc zero)) = some unknown
verdict_of_int (pos (suc (suc zero))) = some suspicious
verdict_of_int (pos (suc (suc (suc zero)))) = some malicious
verdict_of_int (pos (suc (suc (suc (suc n))))) = none
verdict_of_int (negsuc n) = none

-- Confidence(i), inside its range
unfoldable pub confidence_of_int : ℤ → Option Confidence
confidence_of_int (pos zero) = some low
confidence_of_int (pos (suc zero)) = some medium
confidence_of_int (pos (suc (suc zero))) = some high
confidence_of_int (pos (suc (suc (suc n)))) = none
confidence_of_int (negsuc n) = none

-- `none` is a returned error
abbrev if_ok {ℓ} : {A : Type ℓ} → A × Bool → Option A
if_ok (a, ok) = if ok then some a else none

module _ (json : Codec) where
  unfoldable pub marshal_verdict : Verdict → Str
  marshal_verdict v = json.quote (Verdict.to_string v)

  unfoldable pub unmarshal_verdict : Str → Option Verdict
  unmarshal_verdict b = elim (json.as_string b) [
    | some s ↦ if_ok (parse_verdict s)
    | none ↦ elim (json.as_int b) [ some i ↦ verdict_of_int i | none ↦ none ]
  ]

  unfoldable pub marshal_confidence : Confidence → Str
  marshal_confidence c = json.quote (Confidence.to_string c)

  unfoldable pub unmarshal_confidence : Str → Option Confidence
  unmarshal_confidence b = elim (json.as_string b) [
    | some s ↦ if_ok (parse_confidence s)
    | none ↦ elim (json.as_int b) [ some i ↦ confidence_of_int i | none ↦ none ]
  ]
