-- ===== src/AiPlane/Calibration.antt =====
-- internal/aiplane/calibration.go: the track record of confidence claims, and the override it
-- gives.
pub mod Downgrades
use open_mal_lab.Common.{
  ℕ, zero, suc, ◌+◌, Bool, true, false, ◌||◌, Str, List, [], ◌∷◌, ◌++◌, Option, none, some, ltb,
  if◌then◌else◌, lit, is_lit,
}
use open_mal_lab.Common.Floats.{Float64}
use open_mal_lab.Knowledge.Platform.{Platform}
use open_mal_lab.AiPlane.Graduation.{count_of, increment}

-- normConfidence of internal/aiplane/contract.go, with the map `validConfidence`
unfoldable pub norm_confidence : Platform → Str → Str
norm_confidence go c =
    let token = go.to_upper (go.trim_space c) in
    if is_lit token "LOW" || is_lit token "MEDIUM" || is_lit token "HIGH" then token else lit "LOW"

pub record Calibration : Type 0 where
  pub correct : List (Str × ℕ)
  pub total : List (Str × ℕ)

abbrev pub cal_min_observations : ℕ
cal_min_observations = 8

unfoldable pub cal_key : Str → Str → Str
cal_key category conf = category ++ lit "|" ++ conf

unfoldable pub new_calibration : Calibration
new_calibration = record { correct = []; total = [] }

-- func (c *Calibration) Record
unfoldable pub record_claim : Platform → Calibration → Str → Str → Bool → Calibration
record_claim go c category conf is_correct =
    let k = cal_key category (norm_confidence go conf) in
    record {
      total = increment c.total k;
      correct = if is_correct then increment c.correct k else c.correct;
    }

module _ (fl : Float64) where
  -- The `switch`, for a claim with enough observations; the floors are 0.85 and 0.60.
  unfoldable pub downgrade : Str → fl.F → Str
  downgrade claimed acc =
      if is_lit claimed "HIGH"
      then (if fl.lt acc (fl.ratio 6 10)
          then lit "LOW"
          else if fl.lt acc (fl.ratio 85 100)
          then lit "MEDIUM"
          else [])
      else if is_lit claimed "MEDIUM"
      then if fl.lt acc (fl.ratio 6 10) then lit "LOW" else []
      else []

  -- The empty string means that there is no override.
  unfoldable pub calibrated : Platform → Calibration → Str → Str → Str
  unfolding downgrade
  calibrated go c category claimed0 =
      let claimed = norm_confidence go claimed0 in
      let k = cal_key category claimed in
      let total = count_of c.total k in
      if is_lit claimed "LOW"
      then []
      else if ltb total cal_min_observations
      then []
      else downgrade claimed (fl.ratio (count_of c.correct k) total)
