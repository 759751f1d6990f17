-- ===== src/Tests/AiPlane.antt =====
-- The theorems on the AI plane's trusted side, at concrete policies, proposals and ledgers.
use open_mal_lab.Common.{
  ◌≤◌, ◌≡◌, ◌↔◌, refl, ◌⊎◌, Bool, true, false, Str, List, [], ◌∷◌, ◌++◌, none, some, arith, lit,
  str_eq, length, replicate,
}
use open_mal_lab.Common.Result.{ok}
use open_mal_lab.Common.Assoc.{lookup, insert}
use open_mal_lab.Knowledge.Registry.{verify_citation}
use open_mal_lab.AiPlane.Contract.{Citation, Evidence, Hypothesis, Proposal}
use open_mal_lab.AiPlane.Graduation.{
  autonomous, Graduation, new_graduation, record_outcome, mode_of, mode, count_of, increment,
}
use open_mal_lab.AiPlane.Graduation.Earned.{
  observed, right, replay, standing, autonomy_is_earned, outcome_moves_mode,
}
use open_mal_lab.AiPlane.Gate.{
  accept, no_signals, Gate, new_gate, default_autonomous_kinds, gate_hypothesis,
  evaluate_with_signals,
}
use open_mal_lab.AiPlane.Gate.Autonomy.{
  here, CitesFact, IsClear, IsEligible, by_list, accept_iff, accepted_is_curated,
}
use open_mal_lab.AiPlane.Gate.Review.{Escalates, needs_human_iff}
use open_mal_lab.AiPlane.Ledger.{
  Handshake, Ledger, new_ledger, append, verify, verify_against, hash_handshake, check_chain, seal,
}
use open_mal_lab.AiPlane.Ledger.Tamper.{
  Clash, append_all, append-verify, append_all-verify, anchored_entries,
}
use open_mal_lab.Tests.Samples.{platform, fact, registry}
use open_mal_lab.Tests.Floats.{fractions, cut_fractions, cut_fractions-IsRounded}
use open_mal_lab.Tests.Knowledge.{cited}

-- Twenty right outcomes.
abbrev history : List (Str × Bool)
history = replicate 20 (b'c' ∷ [], true)

graduated :
    mode fractions (replay fractions (new_graduation fractions) history) (b'c' ∷ []) ≡ autonomous
unfolding mode mode_of replay record_outcome new_graduation count_of increment insert lookup str_eq
graduated = refl

autonomy_is_earned_example :
    (20 ≤ observed (b'c' ∷ []) history)
    × (fractions.le
          (fractions.ratio 9 10)
          (fractions.ratio (right (b'c' ∷ []) history) (observed (b'c' ∷ []) history))
        ≡ true)
autonomy_is_earned_example = autonomy_is_earned fractions history (b'c' ∷ []) (λ e. cc) graduated

abbrev track : Graduation cut_fractions
track = record {
  correct = (b'c' ∷ [], 18) ∷ [];
  total = (b'c' ∷ [], 20) ∷ [];
  min_to_autonomous = 20;
  accuracy_floor = cut_fractions.ratio 9 10;
  shadow_floor = cut_fractions.ratio 3 10;
}

track_counts : (count_of track.total (b'c' ∷ []) ≡ 20) × (count_of track.correct (b'c' ∷ []) ≡ 18)
unfolding count_of lookup str_eq
track_counts = (refl, refl)

outcome_moves_mode_example :
    (standing (mode cut_fractions track (b'c' ∷ []))
      ≤ standing
          (mode cut_fractions (record_outcome cut_fractions track (b'c' ∷ []) true) (b'c' ∷ [])))
    × (standing
          (mode cut_fractions (record_outcome cut_fractions track (b'c' ∷ []) false) (b'c' ∷ []))
        ≤ standing (mode cut_fractions track (b'c' ∷ [])))
outcome_moves_mode_example =
    outcome_moves_mode cut_fractions cut_fractions-IsRounded track refl (b'c' ∷ []) (λ e. cc)
      (omega (arith, track_counts.0)) (omega (arith, track_counts.0))
      (omega (arith, track_counts.0)) (omega (arith, track_counts.0, track_counts.1))

abbrev citation : Citation
citation = record { fact_id = fact.id; kind = lit "family"; key = lit "emotet" }

abbrev hypothesis : Hypothesis
hypothesis = record {
  kind = lit "capability";
  claim = lit "drops a payload";
  confidence = lit "LOW";
  citations = citation ∷ [];
}

abbrev pub gate : Gate fractions
gate = new_gate fractions (some (verify_citation platform registry))

eligible : IsEligible fractions hypothesis.kind (default_autonomous_kinds hypothesis.kind) none
unfolding default_autonomous_kinds str_eq lit
eligible = by_list refl

quiet : IsClear fractions (no_signals fractions)
unfolding str_eq lit
quiet = record { not_refuted = refl; not_novel = refl; not_inconsistent = refl; not_low = refl }

accept_iff_example :
    (gate_hypothesis fractions gate (no_signals fractions) hypothesis).disposition ≡ accept
unfolding new_gate
accept_iff_example =
    (accept_iff fractions gate (no_signals fractions) hypothesis).1
      ((verify_citation platform registry, refl, here cited), eligible, quiet)

accepted_now :
    (gate_hypothesis fractions gate (no_signals fractions) hypothesis).disposition ≡ accept
unfolding new_gate
accepted_now =
    (accept_iff fractions gate (no_signals fractions) hypothesis).1
      ((verify_citation platform registry, refl, here cited), eligible, quiet)

accepted_is_curated_example : CitesFact platform registry hypothesis.citations
accepted_is_curated_example =
    accepted_is_curated fractions platform registry gate (no_signals fractions) hypothesis
      (unfold new_gate in refl) accepted_now

abbrev evidence : Evidence
evidence = record {
  submission_id = lit "s1";
  sha256 = lit "aa";
  file_type = lit "pebin";
  verdict = lit "SUSPICIOUS";
  score = 20;
  confidence = lit "LOW";
  incomplete = false;
  items = [];
}

abbrev proposal : Proposal
proposal = record {
  summary = lit "a loader";
  hypotheses = hypothesis ∷ [];
  iocs = [];
  needs_review = true;
  review_reason = lit "odd";
}

needs_human_iff_example :
    (((evaluate_with_signals fractions gate evidence proposal []).needs_human ≡ true) ↔ (
      Escalates fractions (evaluate_with_signals fractions gate evidence proposal []).hypotheses
      ⊎ (proposal.needs_review ≡ true)))
    × ((length (evaluate_with_signals fractions gate evidence proposal []).reasons ≡ 0)
        ↔ ((evaluate_with_signals fractions gate evidence proposal []).needs_human ≡ false))
needs_human_iff_example = needs_human_iff fractions gate evidence proposal []

-- The submission id and the previous hash stand for the JSON of a handshake.
abbrev pub json : Handshake → Str
json h = h.submission_id ++ h.prev_hash

abbrev pub digest : Str → Str
digest s = b'#' ∷ s

abbrev handshake : Handshake
handshake = record {
  seq = 0;
  submission_id = lit "s1";
  provider = lit "claude";
  evidence_hash = [];
  proposal_hash = [];
  outcome = lit "gated";
  needs_human = false;
  accepted = 1;
  cited_fact_ids = [];
  retrieval_tiers = [];
  prev_hash = [];
  hash = [];
}

append_all-verify_example :
    verify json digest (append_all json digest new_ledger (handshake ∷ handshake ∷ [])) ≡ ok tt
append_all-verify_example = append_all-verify json digest (handshake ∷ handshake ∷ [])

abbrev pub ledger : Ledger
ledger = append_all json digest new_ledger (handshake ∷ handshake ∷ [])

pub ledger_verified : verify json digest ledger ≡ ok tt
ledger_verified = append_all-verify json digest (handshake ∷ handshake ∷ [])

append-verify_example :
    (verify json digest (append json digest ledger handshake).1 ≡ ok tt)
    × ((append json digest ledger handshake).1.entries
        ≡ ledger.entries ++ ((append json digest ledger handshake).0 ∷ []))
    × ((append json digest ledger handshake).1.last_hash
        ≡ hash_handshake json digest (append json digest ledger handshake).0)
append-verify_example = append-verify json digest ledger handshake ledger_verified

-- The last entry of the ledger with another provider, which this JSON leaves out.
abbrev rewritten : Ledger
rewritten =
    append_all json digest new_ledger (handshake ∷ record handshake { provider = lit "gpt" } ∷ [])

anchored : verify_against json digest ledger 2 ledger.last_hash ≡ ok tt
unfolding verify_against verify check_chain append_all append seal hash_handshake new_ledger str_eq
    lit
anchored = refl

rewritten_anchored : verify_against json digest rewritten 2 ledger.last_hash ≡ ok tt
unfolding verify_against verify check_chain append_all append seal hash_handshake new_ledger str_eq
    lit
rewritten_anchored = refl

anchored_entries_example :
    (ledger.entries ≡ rewritten.entries) ⊎ Clash json digest ledger.entries rewritten.entries
anchored_entries_example =
    anchored_entries json digest ledger rewritten 2 ledger.last_hash anchored rewritten_anchored
