-- ===== src/Pipeline/Score/Growth.antt =====
-- internal/pipeline/types.go: the score under one more finding.
use open_mal_lab.Common.{
  ℕ, zero, suc, ◌+◌, ◌*◌, ◌/◌, ◌≤◌, List, [], ◌∷◌, ◌++◌, arith, ltb, if◌then◌else◌, Bool-cases, inl,
  inr,
}
use mathlib.Core.List.{perm_middle}
use open_mal_lab.Pipeline.Types.{Finding}
use open_mal_lab.Pipeline.Score.{contribution, weigh, clamp_score, score_findings}
use open_mal_lab.Pipeline.Score.Sorting.{put, IsDesc}
use open_mal_lab.Pipeline.Score.Order.{
  ranked, rank_one, ranked-cons, score_lem, score-perm, ranked-IsDesc,
}

-- The second list is as long and, place by place, as large.
abbrev pub Dominated : List ℕ → List ℕ → Type 0
Dominated [] ys = Unit
Dominated (x ∷ xs) [] = ⊥
Dominated (x ∷ xs) (y ∷ ys) = (x ≤ y) × Dominated xs ys

Dominated-refl : (l : List ℕ) → Dominated l l
Dominated-refl [] = tt
Dominated-refl (x ∷ l) = (omega arith, Dominated-refl l)

Dominated-cons : (p : ℕ) (l : List ℕ) → IsDesc (p ∷ l) → Dominated l (p ∷ l)
Dominated-cons p [] h = tt
Dominated-cons p (q ∷ l) h = (h.0.0, Dominated-cons q l h.1)

Dominated-put : (x : ℕ) (l : List ℕ) → IsDesc l → Dominated l (put x l)
unfolding put
Dominated-put x [] h = tt
Dominated-put x (p ∷ ps) h = elim (Bool-cases (ltb p x)) [
  | inl e ↦ rw e (ground arith, Dominated-cons p ps h)
  | inr e ↦ rw e (omega arith, Dominated-put x ps h.1)
]

div_mono : (a b d : ℕ) → a ≤ b → a / d ≤ b / d
div_mono a b zero h = grind arith
div_mono a b (suc d) h = grind arith

pub weigh_mono :
    (s t d : ℕ) (xs ys : List ℕ) → s ≤ t → Dominated xs ys → weigh s d xs ≤ weigh t d ys
unfolding weigh
weigh_mono s t d [] [] h p = h
weigh_mono s t d [] (y ∷ ys) h p =
    weigh_mono s (t + y / d) (if ltb d 8 then d * 2 else d) [] ys (omega arith) tt
weigh_mono s t d (x ∷ xs) [] h p = absurd p
weigh_mono s t d (x ∷ xs) (y ∷ ys) h p =
    weigh_mono (s + x / d) (t + y / d) (if ltb d 8 then d * 2 else d) xs ys
      (omega (arith, div_mono x y d p.0)) p.1

pub clamp_mono : (a b : ℕ) → a ≤ b → clamp_score a ≤ clamp_score b
unfolding clamp_score
clamp_mono a b h = ground arith

Dominated-ranked : (f : Finding) (fs : List Finding) → Dominated (ranked fs) (ranked (f ∷ fs))
unfolding rank_one
Dominated-ranked f fs =
    rw (ranked-cons f fs) (elim (Bool-cases (ltb 0 (contribution f.verdict f.confidence))) [
      | inl e ↦
          rw e (Dominated-put (contribution f.verdict f.confidence) (ranked fs) (ranked-IsDesc fs))
      | inr e ↦ rw e (Dominated-refl (ranked fs))
    ])

score-cons : (f : Finding) (fs : List Finding) → (score_findings fs).0 ≤ (score_findings (f ∷ fs)).0
score-cons f fs =
    rw (score_lem fs, score_lem (f ∷ fs))
      (clamp_mono _ _
        (weigh_mono 0 0 1 (ranked fs) (ranked (f ∷ fs)) (omega arith) (Dominated-ranked f fs)))

score-le : (fs : List Finding) → (score_findings fs).0 ≤ 100
unfolding score_findings clamp_score
score-le fs = ground arith

-- One more finding, wherever it stands in the list, never lowers the triage score, which is at
-- most 100.
pub score-insert_le :
    (fs gs : List Finding) (f : Finding)
    → ((score_findings (fs ++ gs)).0 ≤ (score_findings (fs ++ f ∷ gs)).0)
      × ((score_findings (fs ++ f ∷ gs)).0 ≤ 100)
score-insert_le fs gs f = (
  rw (score-perm (fs ++ f ∷ gs) (f ∷ (fs ++ gs)) (perm_middle fs gs)) (score-cons f (fs ++ gs)),
  score-le (fs ++ f ∷ gs),
)
