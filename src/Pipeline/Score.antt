-- ===== src/Pipeline/Score.antt =====
-- internal/pipeline/types.go: the triage score of a list of findings.
pub mod Sorting
pub mod Order
pub mod Growth
pub mod Floors
use open_mal_lab.Common.{
  ℕ, zero, suc, ◌+◌, ◌*◌, ◌/◌, Bool, true, false, List, [], ◌∷◌, ltb, if◌then◌else◌,
}
use mathlib.Core.List.{reverse}
use open_mal_lab.Pipeline.Verdict.{Verdict, suspicious, malicious, benign, unknown, at_least}
use open_mal_lab.Pipeline.Confidence.{Confidence, low, medium, high, level}
use open_mal_lab.Pipeline.Types.{Finding}

-- func base
unfoldable pub base : Verdict → ℕ
base malicious = 95
base suspicious = 55
base unknown = 0
base benign = 0

unfoldable pub contribution : Verdict → Confidence → ℕ
unfolding base
contribution v high = base v
contribution v medium = base v * 6 / 10
contribution v low = base v * 3 / 10

-- The inner loop of `sortDesc`: `x` is swapped leftwards past each smaller element. The part of
-- the array that is sorted is kept with its last element first.
unfoldable pub sink : ℕ → List ℕ → List ℕ
sink x [] = x ∷ []
sink x (p ∷ ps) = if ltb p x then p ∷ sink x ps else x ∷ p ∷ ps

-- The outer loop of `sortDesc`, over the elements that are not sorted yet.
unfoldable pub sort_loop : List ℕ → List ℕ → List ℕ
unfolding sink
sort_loop sorted [] = sorted
sort_loop sorted (x ∷ xs) = sort_loop (sink x sorted) xs

unfoldable pub sort_desc : List ℕ → List ℕ
unfolding sort_loop
sort_desc xs = reverse (sort_loop [] xs)

-- The loop that collects the contributions above 0.
unfoldable pub contributions : List Finding → List ℕ
unfolding contribution
contributions [] = []
contributions (f ∷ fs) =
    let c = contribution f.verdict f.confidence in
    let rest = contributions fs in if ltb 0 c then c ∷ rest else rest

-- `agg` and `hasReal` after the loop: the strongest confidence of a finding at or above SUSPICIOUS.
unfoldable pub aggregate : Confidence → Bool → List Finding → Confidence × Bool
aggregate agg has_real [] = (agg, has_real)
aggregate agg has_real (f ∷ fs) =
    if at_least f.verdict suspicious
    then aggregate (if ltb (level agg) (level f.confidence) then f.confidence else agg) true fs
    else aggregate agg has_real fs

-- The scoring loop: `div` doubles until it is 8.
unfoldable pub weigh : ℕ → ℕ → List ℕ → ℕ
weigh score div [] = score
weigh score div (c ∷ cs) = weigh (score + c / div) (if ltb div 8 then div * 2 else div) cs

-- if score > 100 { score = 100 }
unfoldable pub clamp_score : ℕ → ℕ
clamp_score score = if ltb 100 score then 100 else score

unfoldable pub score_findings : List Finding → ℕ × Confidence
unfolding contributions aggregate sort_desc weigh clamp_score
score_findings findings =
    let (agg, has_real) = aggregate low false findings in
    (clamp_score (weigh 0 1 (sort_desc (contributions findings))), if has_real then agg else low)
