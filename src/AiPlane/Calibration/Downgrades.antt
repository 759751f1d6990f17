-- ===== src/AiPlane/Calibration/Downgrades.antt =====
-- internal/aiplane/calibration.go: how an override stands to the claim and its record.
use open_mal_lab.Common.{
  ℕ, ◌≤◌, ◌<◌, ◌≡◌, ◌⊎◌, refl, true, false, Str, [], arith, if◌then◌else◌, lit, is_lit, str_eq,
}
use open_mal_lab.Common.Floats.{Float64}
use open_mal_lab.Knowledge.Platform.{Platform}
use open_mal_lab.AiPlane.Graduation.{count_of}
use open_mal_lab.AiPlane.Calibration.{
  Calibration, cal_min_observations, cal_key, norm_confidence, calibrated,
}

-- The token for which the gate keeps a claim: the words in order, and anything else as LOW.
abbrev strength : Str → ℕ
strength s = if is_lit s "HIGH" then 2 else if is_lit s "MEDIUM" then 1 else 0

words_differ :
    (str_eq (lit "LOW") (lit "HIGH") ≡ false)
    × (str_eq (lit "LOW") (lit "MEDIUM") ≡ false)
    × (str_eq (lit "MEDIUM") (lit "HIGH") ≡ false)
    × (str_eq (lit "MEDIUM") (lit "MEDIUM") ≡ true)
unfolding str_eq lit
words_differ = (refl, refl, refl, refl)

-- An override of a claim, when there is one, is the word for a strictly weaker confidence, and
-- rests on at least eight recorded outcomes of the category at the claimed confidence.
calibrated_downgrades :
    (fl : Float64) (go : Platform) (c : Calibration) (category claimed : Str)
    → (calibrated fl go c category claimed ≡ [])
      ⊎ ((strength (calibrated fl go c category claimed) < strength (norm_confidence go claimed))
          × (cal_min_observations
              ≤ count_of c.total (cal_key category (norm_confidence go claimed))))
unfolding calibrated
calibrated_downgrades fl go c category claimed = ground (arith, words_differ)
