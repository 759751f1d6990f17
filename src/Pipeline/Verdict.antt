-- ===== src/Pipeline/Verdict.antt =====
-- internal/pipeline/types.go: the verdict lattice and its wire form.
pub mod Lattice
use open_mal_lab.Common.{
  ℕ, zero, suc, Bool, true, false, Str, lit, is_lit, ltb, if◌then◌else◌, arith, ◌≡◌, refl,
}

pub data Verdict : Type 0 where
  benign unknown suspicious malicious : Verdict

-- The integer that `iota` gives a verdict.
abbrev pub rank : Verdict → ℕ
rank benign = 0
rank unknown = 1
rank suspicious = 2
rank malicious = 3

-- func (v Verdict) String
unfoldable pub to_string : Verdict → Str
unfolding lit
to_string benign = lit "BENIGN"
to_string suspicious = lit "SUSPICIOUS"
to_string malicious = lit "MALICIOUS"
to_string unknown = lit "UNKNOWN"

unfoldable pub parse_verdict : Str → Verdict × Bool
parse_verdict s =
    if is_lit s "BENIGN"
    then (benign, true)
    else if is_lit s "UNKNOWN"
    then (unknown, true)
    else if is_lit s "SUSPICIOUS"
    then (suspicious, true)
    else if is_lit s "MALICIOUS"
    then (malicious, true)
    else (suspicious, false)

-- func Max, the join of the lattice
unfoldable pub join : Verdict → Verdict → Verdict
join a b = if ltb (rank b) (rank a) then a else b

-- a >= b
abbrev pub at_least : Verdict → Verdict → Bool
at_least a b = if ltb (rank a) (rank b) then false else true

pub Verdict-discrete : Discrete Verdict
Verdict-discrete = hlevel
