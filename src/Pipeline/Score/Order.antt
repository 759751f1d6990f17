-- ===== src/Pipeline/Score/Order.antt =====
-- internal/pipeline/types.go: the score under a change of order.
use mathlib.Core.Logic.{∥∥₁_elim}
use mathlib.Core.List.{Perm, Permᴰ}
use native.Mathlib.Decide.{ℕ_discrete}
use open_mal_lab.Common.{
  ℕ, ◌≡◌, refl, ◌∙◌, Bool, true, false, List, ◌∷◌, arith, ltb, if◌then◌else◌, Bool-cases, inl, inr,
}
use open_mal_lab.Pipeline.Verdict.{suspicious, at_least}
use open_mal_lab.Pipeline.Confidence.{Confidence, low, level}
use open_mal_lab.Pipeline.Types.{Finding}
use open_mal_lab.Pipeline.Score.{
  contribution, contributions, aggregate, weigh, clamp_score, score_findings,
}
use open_mal_lab.Pipeline.Score.Sorting.{
  put, isort, put_comm, sort_desc-eq-isort, IsDesc, isort-IsDesc,
}

-- The contributions in descending order.
unfoldable pub ranked : List Finding → List ℕ
unfolding contributions isort
ranked fs = isort (contributions fs)

unfoldable pub rank_one : ℕ → List ℕ → List ℕ
unfolding put
rank_one c l = if ltb 0 c then put c l else l

pub ranked-cons :
    (f : Finding) (fs : List Finding)
    → ranked (f ∷ fs) ≡ rank_one (contribution f.verdict f.confidence) (ranked fs)
unfolding ranked rank_one
ranked-cons f fs = elim (Bool-cases (ltb 0 (contribution f.verdict f.confidence))) [
  | inl e ↦ rw e
  | inr e ↦ rw e
]

rank_one_comm : (a b : ℕ) (l : List ℕ) → rank_one a (rank_one b l) ≡ rank_one b (rank_one a l)
unfolding rank_one
rank_one_comm a b l = elim (Bool-cases (ltb 0 a)) [
  | inl e ↦ elim (Bool-cases (ltb 0 b)) [ inl k ↦ rw (e, k) (put_comm a b l) | inr k ↦ rw (e, k) ]
  | inr e ↦ rw e
]

ranked-perm : {fs gs : List Finding} → Permᴰ fs gs → ranked fs ≡ ranked gs
ranked-perm Permᴰ.nil = refl
ranked-perm (Permᴰ.cons {a = f} {b = g} {l₁ = fs} {l₂ = gs} e p) =
    rw (ranked-cons, ranked-cons, e, ranked-perm p)
ranked-perm (Permᴰ.swap {a = f} {b = g} {l = fs} e k) =
    rw (ranked-cons, ranked-cons, ranked-cons, ranked-cons, ← e, ← k)
      (rank_one_comm (contribution f.verdict f.confidence) (contribution g.verdict g.confidence)
        (ranked fs))
ranked-perm (Permᴰ.trans p q) = ranked-perm p ∙ ranked-perm q

aggregate_swap :
    (f g : Finding) (fs : List Finding) (agg : Confidence) (has_real : Bool)
    → aggregate agg has_real (f ∷ g ∷ fs) ≡ aggregate agg has_real (g ∷ f ∷ fs)
unfolding aggregate
aggregate_swap f g fs agg has_real = ground arith

aggregate-cons :
    (f : Finding) (fs gs : List Finding)
    → ((agg : Confidence) (has_real : Bool) → aggregate agg has_real fs ≡ aggregate agg has_real gs)
    → (agg : Confidence) (has_real : Bool)
    → aggregate agg has_real (f ∷ fs) ≡ aggregate agg has_real (f ∷ gs)
unfolding aggregate
aggregate-cons f fs gs same agg has_real = elim (Bool-cases (at_least f.verdict suspicious)) [
  | inl e ↦ rw e (same (if ltb (level agg) (level f.confidence) then f.confidence else agg) true)
  | inr e ↦ rw e (same agg has_real)
]

aggregate-perm :
    {fs gs : List Finding}
    → Permᴰ fs gs
    → (agg : Confidence) (has_real : Bool) → aggregate agg has_real fs ≡ aggregate agg has_real gs
aggregate-perm Permᴰ.nil agg has_real = refl
aggregate-perm (Permᴰ.cons {a = f} {b = g} {l₁ = fs} {l₂ = gs} e p) agg has_real =
    rw e (aggregate-cons g fs gs (aggregate-perm p) agg has_real)
aggregate-perm (Permᴰ.swap {a = f} {b = g} {l = fs} e k) agg has_real =
    rw (← e, ← k) (aggregate_swap f g fs agg has_real)
aggregate-perm (Permᴰ.trans p q) agg has_real =
    aggregate-perm p agg has_real ∙ aggregate-perm q agg has_real

pub score_lem :
    (fs : List Finding)
    → score_findings fs ≡ (
      clamp_score (weigh 0 1 (ranked fs)),
      if (aggregate low false fs).1 then (aggregate low false fs).0 else low,
    )
unfolding score_findings ranked
score_lem fs = rw sort_desc-eq-isort

score-permᴰ : {fs gs : List Finding} → Permᴰ fs gs → score_findings fs ≡ score_findings gs
score-permᴰ {fs} {gs} p = rw (score_lem fs, score_lem gs, ranked-perm p, aggregate-perm p low false)

Confidence-set : IsSet Confidence
Confidence-set = hlevel

ℕ×Confidence-discrete : Discrete (ℕ × Confidence)
ℕ×Confidence-discrete = hlevel ℕ_discrete

-- Findings in any order have the same score and the same aggregate confidence.
pub score-perm : (fs gs : List Finding) → Perm fs gs → score_findings fs ≡ score_findings gs
score-perm fs gs p = ∥∥₁_elim p (hlevel ℕ_discrete) score-permᴰ

pub ranked-IsDesc : (fs : List Finding) → IsDesc (ranked fs)
unfolding ranked
ranked-IsDesc fs = isort-IsDesc (contributions fs)
