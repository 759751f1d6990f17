-- ===== src/AiPlane/Gate/Review.antt =====
-- internal/aiplane/gate.go and facade.go: the request for a human, and the findings of a result.
use open_mal_lab.Common.{
  ℕ, ◌+◌, ◌≡◌, refl, ◌↔◌, ◌⊎◌, inl, inr, true, false, ◌||◌, List, [], ◌∷◌, arith, lit, length, All,
  Bool-cases, map, ap,
}
use open_mal_lab.Common.Floats.{Float64}
use open_mal_lab.Pipeline.Verdict.{suspicious}
use open_mal_lab.Pipeline.Confidence.{low}
use open_mal_lab.Pipeline.Types.{Finding}
use open_mal_lab.AiPlane.Contract.{Evidence, Hypothesis, Proposal}
use open_mal_lab.AiPlane.Gate.{
  Disposition, drop, escalate, accept, is_escalate, enrichment_verdict, GateSignals,
  GatedHypothesis, Gate, gate_hypothesis, gate_all, any_escalated, review_reasons,
  evaluate_with_signals, findings_of, enrichment_findings,
}

disposition_cases : (d : Disposition) → (d ≡ accept) ⊎ ((d ≡ drop) ⊎ (d ≡ escalate))
disposition_cases accept = inl refl
disposition_cases drop = inr (inl refl)
disposition_cases escalate = inr (inr refl)

module _ (fl : Float64) where
  -- Some hypothesis of the list was escalated.
  pub data Escalates : List (GatedHypothesis fl) → Type 0 where
    here :
        {gh : GatedHypothesis fl} {ghs : List (GatedHypothesis fl)}
        → gh.disposition ≡ escalate
        → Escalates (gh ∷ ghs)
    there :
        {gh : GatedHypothesis fl} {ghs : List (GatedHypothesis fl)}
        → Escalates ghs
        → Escalates (gh ∷ ghs)

  by_disposition :
      (gh : GatedHypothesis fl) (ghs : List (GatedHypothesis fl)) (d : Disposition)
      → gh.disposition ≡ d
      → (any_escalated fl ghs ≡ true → Escalates ghs)
      → (is_escalate d || any_escalated fl ghs) ≡ true
      → Escalates (gh ∷ ghs)
  by_disposition gh ghs drop e rest h = there (rest h)
  by_disposition gh ghs escalate e rest h = here e
  by_disposition gh ghs accept e rest h = there (rest h)

  escalates : (ghs : List (GatedHypothesis fl)) → any_escalated fl ghs ≡ true → Escalates ghs
  unfolding any_escalated
  escalates [] h = cc
  escalates (gh ∷ ghs) h = by_disposition gh ghs gh.disposition refl (escalates ghs) h

  Escalates-found : (ghs : List (GatedHypothesis fl)) → Escalates ghs → any_escalated fl ghs ≡ true
  unfolding any_escalated
  Escalates-found [] x = elim x [ ]
  Escalates-found (gh ∷ ghs) (here e) = rw e refl
  Escalates-found (gh ∷ ghs) (there x) = ground (arith, Escalates-found ghs x)

  -- The result asks for a human exactly when a hypothesis was escalated or the model asked for
  -- review, so the model cannot wave a review off; and it gives a reason exactly when it asks.
  pub needs_human_iff :
      (g : Gate fl) (ev : Evidence) (p : Proposal) (sigs : List (GateSignals fl))
      → (((evaluate_with_signals fl g ev p sigs).needs_human ≡ true)
          ↔ (Escalates (evaluate_with_signals fl g ev p sigs).hypotheses ⊎ (p.needs_review ≡ true)))
        × ((length (evaluate_with_signals fl g ev p sigs).reasons ≡ 0)
            ↔ ((evaluate_with_signals fl g ev p sigs).needs_human ≡ false))
  unfolding evaluate_with_signals review_reasons
  needs_human_iff g ev p sigs =
      let hs = gate_all fl g sigs p.hypotheses in
      (
        (
          λ e. elim (Bool-cases (any_escalated fl hs)) [
            | inl y ↦ inl (escalates hs y)
            | inr n ↦ inr (ground arith)
          ],
          λ w. elim w [ inl x ↦ rw (Escalates-found hs x) refl | inr e ↦ ground arith ],
        ),
        (λ e. ground arith, λ e. ground arith),
      )

  -- The loop of Enrich that counts the accepted hypotheses for the handshake.
  unfoldable pub accepted : List (GatedHypothesis fl) → ℕ
  accepted [] = 0
  accepted (gh ∷ ghs) =
      (elim gh.disposition [ accept ↦ 1 | drop ↦ 0 | escalate ↦ 0 ]) + accepted ghs

  abbrev pub IsCapped : Finding → Type 0
  IsCapped f = (f.verdict ≡ suspicious) × (f.confidence ≡ low) × (f.engine ≡ lit "mal-ai")

  pub findings_of_lem :
      (ghs : List (GatedHypothesis fl))
      → (length (findings_of fl ghs) ≡ accepted ghs) × All IsCapped (findings_of fl ghs)
  unfolding findings_of enrichment_verdict accepted
  findings_of_lem [] = (refl, tt)
  findings_of_lem (gh ∷ ghs) =
      let rest = findings_of_lem ghs in
      elim (disposition_cases gh.disposition) [
        | inl e ↦ rw e (omega (arith, rest.0), ((refl, refl, refl), rest.1))
        | inr (inl e) ↦ rw e (omega (arith, rest.0), rest.1)
        | inr (inr e) ↦ rw e (omega (arith, rest.0), rest.1)
      ]

  hypotheses_kept :
      (g : Gate fl) (sigs : List (GateSignals fl)) (hs : List Hypothesis)
      → map (λ gh. gh.hypothesis) (gate_all fl g sigs hs) ≡ hs
  unfolding gate_all gate_hypothesis
  hypotheses_kept g [] [] = refl
  hypotheses_kept g (s ∷ sigs) [] = refl
  hypotheses_kept g [] (h ∷ hs) = ap (λ t. h ∷ t) (hypotheses_kept g [] hs)
  hypotheses_kept g (s ∷ sigs) (h ∷ hs) = ap (λ t. h ∷ t) (hypotheses_kept g sigs hs)

  -- The result holds the proposal's hypotheses in order, and its findings are as many as it accepted,
  -- each of engine mal-ai, with verdict SUSPICIOUS and LOW confidence.
  pub enrichment-IsCapped :
      (g : Gate fl) (ev : Evidence) (p : Proposal) (sigs : List (GateSignals fl))
      → (map (λ gh. gh.hypothesis) (evaluate_with_signals fl g ev p sigs).hypotheses ≡ p.hypotheses)
        × (length (enrichment_findings fl (evaluate_with_signals fl g ev p sigs))
            ≡ accepted (evaluate_with_signals fl g ev p sigs).hypotheses)
        × All IsCapped (enrichment_findings fl (evaluate_with_signals fl g ev p sigs))
  unfolding evaluate_with_signals enrichment_findings
  enrichment-IsCapped g ev p sigs =
      let found = findings_of_lem (gate_all fl g sigs p.hypotheses) in
      (hypotheses_kept g sigs p.hypotheses, found.0, found.1)
