-- ===== src/Pipeline/Score/Floors.antt =====
-- internal/pipeline/types.go: a wall of fail-closed floors beside one detection.
use open_mal_lab.Common.{
  ℕ, zero, suc, ◌≤◌, ◌<◌, ◌≡◌, refl, ap, List, [], ◌∷◌, arith, All, length, replicate,
}
use open_mal_lab.Pipeline.Verdict.{suspicious}
use open_mal_lab.Pipeline.Confidence.{low, high}
use open_mal_lab.Pipeline.Types.{Finding}
use open_mal_lab.Pipeline.Score.{contribution, weigh, clamp_score, score_findings}
use open_mal_lab.Pipeline.Score.Sorting.{put}
use open_mal_lab.Pipeline.Score.Order.{ranked, rank_one, ranked-cons, score_lem}
use open_mal_lab.Pipeline.Score.Growth.{Dominated, weigh_mono, clamp_mono}

-- What the workflow records for a crashed engine or a cap: SUSPICIOUS at LOW confidence.
abbrev pub IsFloor : Finding → Type 0
IsFloor f = (f.verdict ≡ suspicious) × (f.confidence ≡ low)

put-replicate : (n : ℕ) → put 16 (replicate n 16) ≡ replicate (suc n) 16
unfolding put
put-replicate zero = refl
put-replicate (suc n) = ap (λ l. 16 ∷ l) (put-replicate n)

ranked_floors : (fs : List Finding) → All IsFloor fs → ranked fs ≡ replicate (length fs) 16
ranked_floors [] h = unfold ranked in refl
ranked_floors (f ∷ fs) h =
    rw (ranked-cons, h.0.0, h.0.1, ranked_floors fs h.1)
      (unfold rank_one contribution in put-replicate (length fs))

Dominated-replicate : (m n : ℕ) → m ≤ n → Dominated (replicate m 16) (replicate n 16)
Dominated-replicate zero n h = tt
Dominated-replicate (suc m) zero h = absurd (omega arith)
Dominated-replicate (suc m) (suc n) h = (omega arith, Dominated-replicate m n (omega arith))

floors_score : (fs : List Finding) → All IsFloor fs → 18 ≤ length fs → 58 ≤ (score_findings fs).0
floors_score fs h n =
    rw (score_lem fs, ranked_floors fs h)
      (unfold weigh clamp_score in
        clamp_mono 58 _
          (weigh_mono 0 0 1 (replicate 18 16) _ (omega arith) (Dominated-replicate 18 _ n)))

real_score :
    (f : Finding) → f.verdict ≡ suspicious → f.confidence ≡ high → (score_findings (f ∷ [])).0 ≡ 55
real_score f v c =
    rw (score_lem (f ∷ []), ranked-cons f [], v, c)
      (unfold rank_one contribution ranked weigh clamp_score in refl)

-- A submission with eighteen or more fail-closed floors, SUSPICIOUS at LOW confidence, and nothing
-- else scores above a submission whose one finding is SUSPICIOUS at HIGH confidence.
pub floors_outrank_detection :
    (f : Finding) (floors : List Finding)
    → f.verdict ≡ suspicious
    → f.confidence ≡ high
    → All IsFloor floors
    → 18 ≤ length floors
    → (score_findings (f ∷ [])).0 < (score_findings floors).0
floors_outrank_detection f floors v c h n = omega (arith, floors_score floors h n, real_score f v c)
