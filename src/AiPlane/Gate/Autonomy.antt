-- ===== src/AiPlane/Gate/Autonomy.antt =====
-- internal/aiplane/gate.go: the acceptance of one hypothesis, and the part of the signals in it.
use mathlib.Core.Option.{some-injective}
use open_mal_lab.Common.{
  ℕ, ◌<◌, ◌≡◌, ◌≢◌, refl, ◌↔◌, Bool, true, false, Str, List, [], ◌∷◌, Option, none, some, arith,
  is_lit, length, Bool-cases, inl, inr, ap, sym, ◌∙◌,
}
use open_mal_lab.Common.Floats.{Float64}
use open_mal_lab.Knowledge.Platform.{Platform}
use open_mal_lab.Knowledge.Store.{Fact}
use open_mal_lab.Knowledge.Registry.{Registry, verify_citation, ok_for_verdict}
use open_mal_lab.Knowledge.Registry.Citations.{IsGrounded, ok_for_verdict_iff}
use open_mal_lab.AiPlane.Contract.{Citation, Hypothesis}
use open_mal_lab.AiPlane.Graduation.{Mode, shadow, supervised, autonomous, Graduation, mode}
use open_mal_lab.AiPlane.Gate.{
  drop, accept, GateSignals, no_signals, Gate, curated_ids, ids_with, verified_curated, is_novel,
  is_inconsistent, stops, after_mode, eligibility, dispose, decide_with, gate_hypothesis,
}

-- Some citation of the list is verified and curated.
pub data Cites (verify : Str → Str → Str → Option Fact) : List Citation → Type 0 where
  here :
      {c : Citation} {cs : List Citation}
      → ok_for_verdict (verify c.fact_id c.kind c.key) ≡ true
      → Cites verify (c ∷ cs)
  there : {c : Citation} {cs : List Citation} → Cites verify cs → Cites verify (c ∷ cs)

-- Some citation of the list is bound to a curated fact of the registry.
pub data CitesFact (go : Platform) (r : Registry) : List Citation → Type 0 where
  here :
      {c : Citation} {cs : List Citation}
      → IsGrounded go r c.fact_id c.kind c.key
      → CitesFact go r (c ∷ cs)
  there : {c : Citation} {cs : List Citation} → CitesFact go r cs → CitesFact go r (c ∷ cs)

cited_fact :
    (go : Platform) (r : Registry) (cs : List Citation)
    → Cites (verify_citation go r) cs
    → CitesFact go r cs
cited_fact go r [] x = elim x [ ]
cited_fact go r (c ∷ cs) (here e) = here ((ok_for_verdict_iff go r c.fact_id c.kind c.key).0 e)
cited_fact go r (c ∷ cs) (there x) = there (cited_fact go r cs x)

module _ (fl : Float64) where
  Cites-curated_ids :
      (verify : Str → Str → Str → Option Fact) (cs : List Citation)
      → 0 < length (curated_ids fl verify cs)
      → Cites verify cs
  unfolding curated_ids
  Cites-curated_ids verify [] h = absurd (omega arith)
  Cites-curated_ids verify (c ∷ cs) h =
      elim (Bool-cases (ok_for_verdict (verify c.fact_id c.kind c.key))) [
        | inl e ↦ here e
        | inr e ↦ there (Cites-curated_ids verify cs (rw e at h))
      ]

  curated_ids-Cites :
      (verify : Str → Str → Str → Option Fact) (cs : List Citation)
      → Cites verify cs
      → 0 < length (curated_ids fl verify cs)
  unfolding curated_ids
  curated_ids-Cites verify [] x = elim x [ ]
  curated_ids-Cites verify (c ∷ cs) (here e) = ground arith
  curated_ids-Cites verify (c ∷ cs) (there w) = ground (arith, curated_ids-Cites verify cs w)

  verified_curated-Cites :
      (g : Gate fl) (h : Hypothesis)
      → 0 < length (verified_curated fl g h)
      → (verify : Str → Str → Str → Option Fact) × (g.verifier ≡ some verify)
        × Cites verify h.citations
  unfolding verified_curated
  verified_curated-Cites g h p = by_verifier g.verifier refl p
    where
      by_verifier :
          (v : Option (Str → Str → Str → Option Fact))
          → g.verifier ≡ v
          → 0 < length (ids_with fl v h.citations)
          → (verify : Str → Str → Str → Option Fact) × (g.verifier ≡ some verify)
            × Cites verify h.citations
      by_verifier none e p = absurd (omega arith)
      by_verifier (some verify) e p = (verify, e, Cites-curated_ids verify h.citations p)

  Cites-verified_curated :
      (g : Gate fl) (h : Hypothesis)
      → ((verify : Str → Str → Str → Option Fact) × (g.verifier ≡ some verify)
          × Cites verify h.citations)
      → 0 < length (verified_curated fl g h)
  unfolding verified_curated
  Cites-verified_curated g h w = rw w.1 (curated_ids-Cites w.0 h.citations w.2)

  -- None of the four reasons to stop holds of the signals.
  pub record IsClear (sig : GateSignals fl) : Type 0 where
    pub not_refuted : sig.refuted ≡ false
    pub not_novel : is_novel fl sig ≡ false
    pub not_inconsistent : is_inconsistent fl sig ≡ false
    pub not_low : is_lit sig.calibrated_confidence "LOW" ≡ false

  stops-IsClear : (sig : GateSignals fl) → (length (stops fl sig) ≡ 0) ↔ IsClear sig
  unfolding stops
  stops-IsClear sig = (
    λ h. record {
      not_refuted = ground arith;
      not_novel = ground arith;
      not_inconsistent = ground arith;
      not_low = ground arith;
    },
    λ c. rw (c.not_refuted, c.not_novel, c.not_inconsistent, c.not_low) refl,
  )

  -- The kind is one the gate may accept: on its list, and autonomous by its own record where the
  -- gate has a graduation policy.
  pub data IsEligible (kind : Str) (listed : Bool) : Option (Graduation fl) → Type 0 where
    by_list : listed ≡ true → IsEligible kind listed none
    by_record :
        {grad : Graduation fl}
        → listed ≡ true
        → mode fl grad kind ≡ autonomous
        → IsEligible kind listed (some grad)

  from_mode :
      (kind : Str) (listed : Bool) (grad : Graduation fl) (m : Mode)
      → mode fl grad kind ≡ m
      → after_mode fl listed m ≡ some true
      → IsEligible kind listed (some grad)
  from_mode kind listed grad shadow e h = cc
  from_mode kind listed grad supervised e h = cc
  from_mode kind listed grad autonomous e h = by_record (cc) e

  eligibility-IsEligible :
      (kind : Str) (listed : Bool) (grad : Option (Graduation fl))
      → eligibility fl grad kind listed ≡ some true
      → IsEligible kind listed grad
  eligibility-IsEligible kind listed none h = by_list cc
  eligibility-IsEligible kind listed (some grad) h =
      from_mode kind listed grad (mode fl grad kind) refl h

  IsEligible-eligibility :
      (kind : Str) (listed : Bool) (grad : Option (Graduation fl))
      → IsEligible kind listed grad
      → eligibility fl grad kind listed ≡ some true
  IsEligible-eligibility kind listed none (by_list e) = ap some e
  IsEligible-eligibility kind listed (some grad) (by_record e m) = rw (m, e) refl

  decide_accept :
      (sig : GateSignals fl) (h : Hypothesis) (n : ℕ) (o : Option Bool)
      → ((decide_with fl sig h n o).0 ≡ accept)
        ↔ ((0 < n) × (o ≡ some true) × (length (stops fl sig) ≡ 0))
  unfolding dispose
  decide_accept sig h n none = (λ e. cc, λ w. cc (w.1))
  decide_accept sig h n (some b) =
      (λ e. (ground arith, ground arith, ground arith), λ w. ground arith)

  grounded_kept :
      (sig : GateSignals fl) (h : Hypothesis) (n : ℕ) (o : Option Bool)
      → 0 < n
      → o ≢ none
      → (decide_with fl sig h n o).0 ≢ drop
  unfolding dispose
  grounded_kept sig h n none p shown = absurd (shown refl)
  grounded_kept sig h n (some b) p shown = ground arith

  -- The gate accepts a hypothesis exactly when a citation of it verifies as a curated fact, its kind
  -- is on the list and has earned autonomy where there is a graduation policy, and no signal is a
  -- reason to stop; the confidence that the model reports for itself plays no part.
  pub accept_iff :
      (g : Gate fl) (sig : GateSignals fl) (h : Hypothesis)
      → ((gate_hypothesis fl g sig h).disposition ≡ accept) ↔ (
          ((verify : Str → Str → Str → Option Fact) × (g.verifier ≡ some verify)
            × Cites verify h.citations)
          × IsEligible h.kind (g.autonomous_kinds h.kind) g.grad
          × IsClear sig)
  unfolding gate_hypothesis
  accept_iff g sig h =
      let ids = length (verified_curated fl g h) in
      let o = eligibility fl g.grad h.kind (g.autonomous_kinds h.kind) in
      let decided = decide_accept sig h ids o in
      (
        λ e.
            let parts = decided.0 e in
            (
              verified_curated-Cites g h parts.0,
              eligibility-IsEligible h.kind (g.autonomous_kinds h.kind) g.grad parts.1,
              (stops-IsClear sig).0 parts.2,
            ),
        λ w. decided.1 (
          Cites-verified_curated g h w.0,
          IsEligible-eligibility h.kind (g.autonomous_kinds h.kind) g.grad w.1,
          (stops-IsClear sig).1 w.2,
        ),
      )

  -- A gate over the registry accepts only a hypothesis one of whose citations is bound to a curated
  -- fact that the registry holds.
  pub accepted_is_curated :
      (go : Platform) (r : Registry) (g : Gate fl) (sig : GateSignals fl) (h : Hypothesis)
      → g.verifier ≡ some (verify_citation go r)
      → (gate_hypothesis fl g sig h).disposition ≡ accept
      → CitesFact go r h.citations
  accepted_is_curated go r g sig h v e =
      let w = ((accept_iff g sig h).0 e).0 in
      cited_fact go r h.citations (rw (some-injective _ _ (sym w.1 ∙ v)) at (w.2))

  -- A signal never turns a hypothesis into an accepted one: what the gate accepts under some signals
  -- it accepts under none, where no signal reads as not novel and as not measured. And a grounded
  -- hypothesis that graduation does not hold in shadow mode is never dropped, whatever the signals.
  signals_only_stop :
      (g : Gate fl) (sig : GateSignals fl) (h : Hypothesis)
      → IsClear (no_signals fl)
      → ((gate_hypothesis fl g sig h).disposition ≡ accept
          → (gate_hypothesis fl g (no_signals fl) h).disposition ≡ accept)
        × (0 < (gate_hypothesis fl g sig h).verified_citations
            → eligibility fl g.grad h.kind (g.autonomous_kinds h.kind) ≢ none
            → (gate_hypothesis fl g sig h).disposition ≢ drop)
  signals_only_stop g sig h clear = (
    λ e. let w = (accept_iff g sig h).0 e in (accept_iff g (no_signals fl) h).1 (w.0, w.1, clear),
    unfold gate_hypothesis in
        λ p shown.
          grounded_kept sig h (length (verified_curated fl g h))
            (eligibility fl g.grad h.kind (g.autonomous_kinds h.kind)) p shown,
  )
