-- ===== src/AiPlane/Gate.antt =====
-- internal/aiplane/gate.go: the deterministic checkpoint over the model's proposal, and the findings
-- that internal/aiplane/facade.go makes of what it accepts.
pub mod Autonomy
pub mod Review
use open_mal_lab.Common.{
  ℕ, zero, suc, ◌+◌, Bool, true, false, not, ◌&&◌, ◌||◌, Str, List, [], ◌∷◌, ◌++◌, map, Option,
  none, some, lit, is_lit, if◌then◌else◌, length, ◌==◌, ltb,
}
use open_mal_lab.Common.Floats.{Float64}
use open_mal_lab.Pipeline.Verdict.{Verdict, unknown, suspicious}
use open_mal_lab.Pipeline.Confidence.{low}
use open_mal_lab.Pipeline.Types.{Finding}
use open_mal_lab.Knowledge.Store.{Fact}
use open_mal_lab.Knowledge.Registry.{ok_for_verdict}
use open_mal_lab.AiPlane.Contract.{Citation, Evidence, Hypothesis, ProposedIoc, Proposal}
use open_mal_lab.AiPlane.Graduation.{Mode, shadow, supervised, autonomous, Graduation, mode}

pub data Disposition : Type 0 where
  drop escalate accept : Disposition

abbrev pub is_escalate : Disposition → Bool
is_escalate escalate = true
is_escalate drop = false
is_escalate accept = false

unfoldable pub enrichment_verdict : Disposition → Verdict
enrichment_verdict accept = suspicious
enrichment_verdict drop = unknown
enrichment_verdict escalate = unknown

unfoldable pub default_autonomous_kinds : Str → Bool
default_autonomous_kinds kind =
    is_lit kind "capability"
    || is_lit kind "behavior"
    || is_lit kind "technique"
    || is_lit kind "ioc-context"

-- The reasons stand as data, one constructor for each message, with the values it prints.
pub data SubmissionReason : Type 0 where
  requested_review : Str → SubmissionReason
  hypotheses_need_review : SubmissionReason

module _ (fl : Float64) where
  pub record GateSignals : Type 0 where
    pub refuted : Bool
    pub self_consistency : fl.F
    pub novelty : fl.F
    pub retrieval_tier : Str
    pub calibrated_confidence : Str

  -- The zero value, `var sig GateSignals`.
  abbrev pub no_signals : GateSignals
  no_signals = record {
    refuted = false;
    self_consistency = fl.ratio 0 1;
    novelty = fl.ratio 0 1;
    retrieval_tier = [];
    calibrated_confidence = [];
  }

  pub data Stop : Type 0 where
    verifier_refuted calibrated_low : Stop
    novel inconsistent : fl.F → Stop

  pub data Reason : Type 0 where
    in_shadow_mode : Str → Reason
    grounded_autonomous : ℕ → Str → Reason
    refuted_ungrounded ungrounded_confident_or_novel ungrounded_low : Reason
    grounded_not_autonomous : ℕ → Option Str → List Stop → Reason

  pub record GatedHypothesis : Type 0 where
    pub hypothesis : Hypothesis
    pub disposition : Disposition
    pub verified_citations : ℕ
    pub verified_citation_ids : List Str
    pub reasons : List Reason

  pub record GateResult : Type 0 where
    pub submission_id : Str
    pub hypotheses : List GatedHypothesis
    pub leads : List ProposedIoc
    pub summary : Str
    pub needs_human : Bool
    pub reasons : List SubmissionReason

  -- The verifier, the interface CitationVerifier, answers with the fact of a verified citation.
  pub record Gate : Type 0 where
    pub verifier : Option (Str → Str → Str → Option Fact)
    pub autonomous_kinds : Str → Bool
    pub grad : Option (Graduation fl)

  unfoldable pub new_gate : Option (Str → Str → Str → Option Fact) → Gate
  new_gate v = record { verifier = v; autonomous_kinds = default_autonomous_kinds; grad = none }

  -- `none` is the nil map.
  unfoldable pub new_gate_with_policy :
      Option (Str → Str → Str → Option Fact) → Option (Str → Bool) → Gate
  unfolding new_gate
  new_gate_with_policy v none = new_gate v
  new_gate_with_policy v (some kinds) = record {
    verifier = v;
    autonomous_kinds = kinds;
    grad = none;
  }

  unfoldable pub new_gate_with_graduation :
      Option (Str → Str → Str → Option Fact) → Option (Graduation fl) → Gate
  new_gate_with_graduation v grad = record {
    verifier = v;
    autonomous_kinds = default_autonomous_kinds;
    grad = grad;
  }

  -- The loop of verifiedCurated, over a verifier.
  unfoldable pub curated_ids : (Str → Str → Str → Option Fact) → List Citation → List Str
  curated_ids verify [] = []
  curated_ids verify (c ∷ cs) =
      let rest = curated_ids verify cs in
      if ok_for_verdict (verify c.fact_id c.kind c.key) then c.fact_id ∷ rest else rest

  abbrev pub ids_with : Option (Str → Str → Str → Option Fact) → List Citation → List Str
  ids_with none cs = []
  ids_with (some verify) cs = curated_ids verify cs

  unfoldable pub verified_curated : Gate → Hypothesis → List Str
  verified_curated g h = ids_with g.verifier h.citations

  abbrev pub is_novel : GateSignals → Bool
  is_novel sig = fl.le (fl.ratio 85 100) sig.novelty

  abbrev pub is_inconsistent : GateSignals → Bool
  is_inconsistent sig =
      fl.lt (fl.ratio 0 1) sig.self_consistency && fl.lt sig.self_consistency (fl.ratio 1 2)

  unfoldable pub stops : GateSignals → List Stop
  stops sig =
      (if sig.refuted then verifier_refuted ∷ [] else [])
      ++ (if is_novel sig then novel sig.novelty ∷ [] else [])
      ++ (if is_inconsistent sig then inconsistent sig.self_consistency ∷ [] else [])
      ++ (if is_lit sig.calibrated_confidence "LOW" then calibrated_low ∷ [] else [])

  -- What graduation makes of a kind: `none` for shadow mode, else whether it stays allowed.
  abbrev pub after_mode : Bool → Mode → Option Bool
  after_mode allowed shadow = none
  after_mode allowed supervised = some false
  after_mode allowed autonomous = some allowed

  abbrev pub eligibility : Option (Graduation fl) → Str → Bool → Option Bool
  eligibility none kind allowed = some allowed
  eligibility (some grad) kind allowed = after_mode allowed (mode fl grad kind)

  unfoldable pub is_confident : GateSignals → Hypothesis → Bool
  is_confident sig h =
      let conf =
        if length sig.calibrated_confidence == 0 then h.confidence else sig.calibrated_confidence in
      is_lit conf "HIGH" || is_lit conf "MEDIUM"

  -- The `switch`, from the verified citations' number, the stop reasons and the rest it tests.
  unfoldable pub dispose : Str → ℕ → Bool → List Stop → Bool → Bool → Bool → Disposition × Reason
  dispose kind n allowed stopped refuted confident novel_enough =
      let grounded = ltb 0 n in
      if grounded && allowed && (length stopped == 0)
      then (accept, grounded_autonomous n kind)
      else if refuted && not grounded
      then (drop, refuted_ungrounded)
      else if grounded
      then (escalate, grounded_not_autonomous n (if allowed then none else some kind) stopped)
      else if confident || novel_enough
      then (escalate, ungrounded_confident_or_novel)
      else (drop, ungrounded_low)

  abbrev pub decide_with : GateSignals → Hypothesis → ℕ → Option Bool → Disposition × Reason
  decide_with sig h n none = (drop, in_shadow_mode h.kind)
  decide_with sig h n (some allowed) =
      dispose h.kind n allowed (stops sig) sig.refuted (is_confident sig h) (is_novel sig)

  -- The body of the loop of EvaluateWithSignals.
  unfoldable pub gate_hypothesis : Gate → GateSignals → Hypothesis → GatedHypothesis
  gate_hypothesis g sig h =
      let ids = verified_curated g h in
      let decided =
        decide_with sig h (length ids) (eligibility g.grad h.kind (g.autonomous_kinds h.kind)) in
      record {
        hypothesis = h;
        disposition = decided.0;
        verified_citations = length ids;
        verified_citation_ids = ids;
        reasons = decided.1 ∷ [];
      }

  -- signals[i] pairs with the i-th hypothesis; where the signals run out they are the zero value.
  unfoldable pub gate_all : Gate → List GateSignals → List Hypothesis → List GatedHypothesis
  gate_all g sigs [] = []
  gate_all g [] (h ∷ hs) = gate_hypothesis g no_signals h ∷ gate_all g [] hs
  gate_all g (sig ∷ sigs) (h ∷ hs) = gate_hypothesis g sig h ∷ gate_all g sigs hs

  unfoldable pub any_escalated : List GatedHypothesis → Bool
  any_escalated [] = false
  any_escalated (gh ∷ ghs) = is_escalate gh.disposition || any_escalated ghs

  unfoldable pub review_reasons : Bool → Bool → Str → List SubmissionReason
  review_reasons escalated asked reason =
      if asked
      then requested_review reason ∷ []
      else if escalated
      then hypotheses_need_review ∷ []
      else []

  unfoldable pub evaluate_with_signals : Gate → Evidence → Proposal → List GateSignals → GateResult
  evaluate_with_signals g ev p signals =
      let hs = gate_all g signals p.hypotheses in
      record {
        submission_id = ev.submission_id;
        hypotheses = hs;
        leads = p.iocs;
        summary = p.summary;
        needs_human = any_escalated hs || p.needs_review;
        reasons = review_reasons (any_escalated hs) p.needs_review p.review_reason;
      }

  unfoldable pub evaluate : Gate → Evidence → Proposal → GateResult
  unfolding evaluate_with_signals
  evaluate g ev p = evaluate_with_signals g ev p []

  -- The loop of EnrichmentFindings of internal/aiplane/facade.go.
  unfoldable pub findings_of : List GatedHypothesis → List Finding
  findings_of [] = []
  findings_of (gh ∷ ghs) =
      let rest = findings_of ghs in
      elim gh.disposition [
        | accept ↦
            record {
              engine = lit "mal-ai";
              type = lit "ai-" ++ gh.hypothesis.kind;
              detail = gh.hypothesis.claim;
              attck = [];
              verdict = enrichment_verdict accept;
              confidence = low;
              path = [];
            }
            ∷ rest
        | drop ↦ rest
        | escalate ↦ rest
      ]

  unfoldable pub enrichment_findings : GateResult → List Finding
  enrichment_findings gr = findings_of gr.hypotheses
