-- ===== src/Orchestrator/Agents/Raised.antt =====
-- services/mal-orchestrator/agentgraph.go: what the agent graph makes of a result.
use open_mal_lab.Common.{
  ◌≡◌, refl, sym, ap, ◌∙◌, Bool, true, false, not, ◌||◌, ◌==◌, List, [], ◌∷◌, ◌++◌, Option, none,
  some, length, lit, All, Bool-cases, inl, inr, append_assoc, append-nil, arith,
}
use open_mal_lab.Common.Floats.{Float64}
use open_mal_lab.Common.Result.{Result, ok, err}
use open_mal_lab.Pipeline.Verdict.{Verdict, suspicious, join}
use open_mal_lab.Pipeline.Types.{Finding, SubmissionResult}
use open_mal_lab.AiPlane.Contract.{Proposal}
use open_mal_lab.AiPlane.Validation.{ProposalError, evidence_from, validate_proposal}
use open_mal_lab.AiPlane.Gate.{Gate}
use open_mal_lab.AiPlane.Gate.Review.{IsCapped, enrichment-IsCapped}
use open_mal_lab.AiPlane.Ledger.{Handshake}
use open_mal_lab.AiPlane.Facade.{Library, start_handshake}
use open_mal_lab.Orchestrator.Adjudication.{
  GateOutcome, GateInput, Plane, adjudicate, gate_with, gate_activity,
}
use open_mal_lab.Orchestrator.Agents.{
  RosterOutcome, Delivery, arrives, lost_before, lost_after, Events, fold_enrichment, after_gate,
  after_roster, agent_graph_workflow, Finished,
}

-- A verdict after findings that are SUSPICIOUS.
abbrev pub raised : Verdict → List Finding → Verdict
raised v [] = v
raised v (f ∷ fs) = join v suspicious

module _ (fl : Float64) where
  -- The second result is the first with capped findings behind its own, the verdict raised to
  -- SUSPICIOUS if there are any, and the flag of review perhaps set; nothing else differs.
  abbrev pub Raises : SubmissionResult → SubmissionResult → Type 0
  Raises res out =
      (extra : List Finding) × (asked : Bool) × All (IsCapped fl) extra
      × (out ≡ record res {
        verdict = raised res.verdict extra;
        findings = res.findings ++ extra;
        needs_review = asked || res.needs_review;
      })

  raised_again :
      (v : Verdict) (fs : List Finding) → raised (join v suspicious) fs ≡ join v suspicious
  unfolding join
  raised_again v [] = refl
  raised_again v (f ∷ fs) = ground arith

  pub fold_lem :
      (res : SubmissionResult) (fs : List Finding)
      → All (IsCapped fl) fs
      → fold_enrichment res fs
        ≡ record res { verdict = raised res.verdict fs; findings = res.findings ++ fs }
  unfolding fold_enrichment
  fold_lem res [] h =
      ap (λ (l : List Finding). record res { findings = l }) (sym (append-nil res.findings))
  fold_lem res (f ∷ fs) h =
      fold_lem
        (record res { verdict = join res.verdict f.verdict; findings = res.findings ++ f ∷ [] }) fs
        h.1
      ∙ ap (λ (v : Verdict). record res { verdict = v; findings = (res.findings ++ f ∷ []) ++ fs })
          (ap (λ w. raised (join res.verdict w) fs) h.0.0 ∙ raised_again res.verdict fs)
      ∙ ap
          (λ (l : List Finding). record res { verdict = join res.verdict suspicious; findings = l })
          (append_assoc res.findings (f ∷ []) fs)

  gate-IsCapped :
      (lib : Library) (pl : Plane fl) (input : GateInput fl)
      → All (IsCapped fl) (gate_activity fl lib pl input).0.findings
  unfolding gate_activity gate_with
  gate-IsCapped lib pl input = by_gate pl.gate
    where
      handshake : Handshake
      handshake = record (start_handshake fl lib (evidence_from lib.text input.result)) {
        provider = lit "agent-graph";
        proposal_hash = lib.digest input.proposal;
      }

      by_valid :
          (g : Gate fl) (h : Handshake) (r : Result ProposalError Proposal)
          → All (IsCapped fl) (adjudicate fl lib g pl input h r).0.findings
      by_valid g h (err e) = unfold adjudicate in tt
      by_valid g h (ok p) =
          unfold adjudicate in
          (enrichment-IsCapped fl g (evidence_from lib.text input.result) p input.signals).2

      by_gate : (o : Option (Gate fl)) → All (IsCapped fl) (gate_with fl lib pl input o).0.findings
      by_gate none = tt
      by_gate (some g) = elim (Bool-cases (length input.proposal == 0)) [
        | inl z ↦ rw z tt
        | inr z ↦
            rw z (by_valid g handshake (validate_proposal lib.go lib.text lib.json input.proposal))
      ]

  pub same-Raises : (res : SubmissionResult) → Raises res res
  same-Raises res = (
    [],
    false,
    tt,
    ap (λ (l : List Finding). record res { findings = l }) (sym (append-nil res.findings)),
  )

  after_gate-Raises :
      (lib : Library) (ev : Events fl) (res : SubmissionResult) (pl : Plane fl) (gate : GateOutcome)
      → All (IsCapped fl) gate.findings
      → Raises res (after_gate fl lib ev res pl gate).0
  unfolding after_gate
  after_gate-Raises lib ev res pl gate h = elim (Bool-cases gate.needs_review) [
    | inl asked ↦ rw asked (
      gate.findings,
      true,
      h,
      ap (λ (r : SubmissionResult). record r { needs_review = true })
          (fold_lem res gate.findings h),
    )
    | inr quiet ↦ rw quiet (gate.findings, false, h, fold_lem res gate.findings h)
  ]

-- The agent graph only raises: whatever the agents answer, whatever is lost, and whatever the analyst decides, the result is
-- the old one with findings of engine mal-ai behind the old findings, each SUSPICIOUS with LOW confidence, with its verdict joined with SUSPICIOUS
-- if there are any and otherwise as it was, and with the flag of review possibly set. Nothing else changes.
pub workflow-Raises :
    (fl : Float64) (lib : Library) (ev : Events fl) (res : SubmissionResult) (pl : Plane fl)
    → Raises fl res (agent_graph_workflow fl lib ev res pl).0
unfolding agent_graph_workflow after_roster
workflow-Raises fl lib ev res pl = by_roster ev.roster
  where
    by_delivery :
        (d : Delivery) (t : GateOutcome × Plane fl)
        → All (IsCapped fl) t.0.findings
        → Raises fl res
            (elim d as (λ _. Finished fl) [
              | lost_before ↦ (res, pl, none)
              | lost_after ↦ (res, t.1, none)
              | arrives ↦ after_gate fl lib ev res t.1 t.0
            ]).0
    by_delivery arrives t h = after_gate-Raises fl lib ev res t.1 t.0 h
    by_delivery lost_before t h = same-Raises fl res
    by_delivery lost_after t h = same-Raises fl res

    by_roster : (o : Option (RosterOutcome fl)) → Raises fl res (after_roster fl lib ev res pl o).0
    by_roster none = same-Raises fl res
    by_roster (some roster) =
        elim (Bool-cases (not roster.configured || length roster.proposal_json == 0)) [
          | inl off ↦ rw off (same-Raises fl res)
          | inr on ↦ rw on (
              by_delivery ev.gate (gate_activity fl lib pl (gate_input roster))
                (gate-IsCapped fl lib pl (gate_input roster)))
        ]
      where
        gate_input : RosterOutcome fl → GateInput fl
        gate_input r = record {
          result = res;
          proposal = r.proposal_json;
          signals = r.signals;
          retrieval_tiers = r.retrieval_tiers;
        }
