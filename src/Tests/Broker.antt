-- ===== src/Tests/Broker.antt =====
-- The theorem on the broker's validation, at a concrete stream.
use open_mal_lab.Common.{
  ◌≡◌, refl, Bool, true, false, Str, [], ◌∷◌, Option, none, some, lit, str_eq,
}
use open_mal_lab.Common.Result.{ok}
use open_mal_lab.Broker.{
  Report, Codec, validate, check_report, check_findings, check_finding, check_children, check_str,
  valid_verdict,
}
use open_mal_lab.Broker.Accepts.{IsContract, validate_iff}

abbrev clean_report : Report
clean_report = record {
  engine = lit "mal-ident";
  findings =
      record { engine = lit "m"; type = lit "t"; detail = []; attck = []; verdict = lit "UNKNOWN" }
      ∷ [];
  children = [];
  verdict = lit "BENIGN";
  incomplete = false;
}

-- A stream of one byte stands for the report.
abbrev read : Str → Option (Report × Str)
read [] = none
read (b ∷ s) = some (clean_report, s)

abbrev ends : Str → Bool
ends [] = true
ends (b ∷ s) = false

abbrev json : Codec
json = record { decode = read; at_eof = ends; encode = λ rep. some (b'{' ∷ []) }

accepted : validate json (b'{' ∷ []) ≡ ok (b'{' ∷ [])
unfolding validate check_report check_findings check_finding check_children check_str valid_verdict
    str_eq lit
accepted = refl

validate_iff_example : IsContract json (b'{' ∷ []) (b'{' ∷ [])
validate_iff_example = (validate_iff json (b'{' ∷ []) (b'{' ∷ [])).0 accepted
