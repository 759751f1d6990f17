-- ===== src/AiPlane/Validation/Bounds.antt =====
-- internal/aiplane/contract.go: what Validate lets through, from its loops upwards.
use mathlib.Core.Path.{subst}
use open_mal_lab.Common.{
  ◌≤◌, ◌<◌, ◌≡◌, refl, true, not, ◌||◌, Str, List, [], ◌∷◌, Option, none, some, arith, leb, ◌==◌,
  length, All, map, leb→le,
}
use open_mal_lab.Common.Result.{ok, ok-injective, guard, >>=-eq-ok, guard-eq-ok}
use open_mal_lab.Knowledge.Platform.{Platform}
use open_mal_lab.AiPlane.Calibration.{norm_confidence}
use open_mal_lab.AiPlane.Cleaning.{TextLibrary, clean}
use open_mal_lab.AiPlane.Contract.{Citation, Hypothesis, ProposedIoc, Proposal}
use open_mal_lab.AiPlane.Validation.{
  max_proposal_bytes, max_summary_len, max_claim_len, max_field_len, max_hypotheses, max_iocs,
  max_citations, ProposalCodec, empty_proposal, proposal_oversize, trailing_after, many_hypotheses,
  many_iocs, many_citations, missing_kind_or_claim, or_undecodable, citation_well_formed,
  check_citations, check_hypothesis, check_hypotheses, check_ioc, check_iocs, says_nothing,
  check_proposal, validate_proposal,
}
use open_mal_lab.AiPlane.Validation.Safe.{
  length-clean, norm_confidence-IsConfidence, IsSafeHypothesis, IsSafeIoc, IsSafe,
}

check_citations-ok :
    (cs : List Citation) {out : List Citation}
    → check_citations cs ≡ ok out
    → (out ≡ cs) × All (λ c. citation_well_formed c ≡ true) cs
unfolding check_citations
check_citations-ok [] h = (cc, tt)
check_citations-ok (c ∷ cs) h =
    let (u, g, h1) = >>=-eq-ok _ _ h in
    let (rest, r, h2) = >>=-eq-ok _ _ h1 in
    let below = check_citations-ok cs r in (cc (h2, below.0), (guard-eq-ok _ _ g, below.1))

or_undecodable-eq-ok : {A : Type 0} (o : Option A) {a : A} → or_undecodable o ≡ ok a → o ≡ some a
or_undecodable-eq-ok none h = cc
or_undecodable-eq-ok (some b) h = cc

filled : (s t : Str) → not (length s == 0 || length t == 0) ≡ true → (0 < length s) × (0 < length t)
filled s t h = ground arith

-- What the validation of a hypothesis, and of a list of them, keeps and gives.
pub record IsChecked (h out : Hypothesis) : Type 0 where
  pub safe : IsSafeHypothesis out
  pub same_citations : out.citations ≡ h.citations

module _ (go : Platform) (text : TextLibrary) where
  made-IsChecked :
      (h : Hypothesis) (cs : List Citation)
      → length h.citations ≤ max_citations
      → (0 < length (clean text h.kind max_field_len))
        × (0 < length (clean text h.claim max_claim_len))
      → cs ≡ h.citations
      → All (λ c. citation_well_formed c ≡ true) h.citations
      → IsChecked h (record {
        kind = clean text h.kind max_field_len;
        claim = clean text h.claim max_claim_len;
        confidence = norm_confidence go h.confidence;
        citations = cs;
      })
  made-IsChecked h cs few present same formed = record {
    safe = record {
      kind = (present.0, length-clean text h.kind max_field_len);
      claim = (present.1, length-clean text h.claim max_claim_len);
      confidence = norm_confidence-IsConfidence go h.confidence;
      few_citations = rw same few;
      citations = rw same formed;
    };
    same_citations = same;
  }

  check_hypothesis-IsChecked :
      (h : Hypothesis) {out : Hypothesis} → check_hypothesis go text h ≡ ok out → IsChecked h out
  unfolding check_hypothesis
  check_hypothesis-IsChecked h e =
      let kind = clean text h.kind max_field_len in
      let claim = clean text h.claim max_claim_len in
      let (u, few, e1) =
        >>=-eq-ok
          (guard (leb (length h.citations) max_citations) (many_citations (length h.citations))) _
          e in
      let (v, both, e2) =
        >>=-eq-ok (guard (not (length kind == 0 || length claim == 0)) missing_kind_or_claim) _
          e1 in
      let (cs, checked, e3) = >>=-eq-ok (check_citations h.citations) _ e2 in
      let present = filled kind claim (guard-eq-ok _ _ both) in
      let same = check_citations-ok h.citations checked in
      subst (IsChecked h)
        (ok-injective
          (ok (record {
            kind = kind;
            claim = claim;
            confidence = norm_confidence go h.confidence;
            citations = cs;
          }))
          refl e3)
        (made-IsChecked h cs (leb→le _ _ (guard-eq-ok _ _ few)) present same.0 same.1)

  check_hypotheses-ok :
      (hs : List Hypothesis) {out : List Hypothesis}
      → check_hypotheses go text hs ≡ ok out
      → All IsSafeHypothesis out
        × (map (λ h. h.citations) out ≡ map (λ h. h.citations) hs)
        × (length out ≡ length hs)
  unfolding check_hypotheses
  check_hypotheses-ok [] e =
      subst (λ o. All IsSafeHypothesis o × (map (λ h. h.citations) o ≡ []) × (length o ≡ 0))
        (ok-injective _ refl e) (tt, refl, refl)
  check_hypotheses-ok (h ∷ hs) e =
      let (h', one, e1) = >>=-eq-ok _ _ e in
      let (rest, more, e2) = >>=-eq-ok _ _ e1 in
      let checked = check_hypothesis-IsChecked h one in
      let below = check_hypotheses-ok hs more in
      subst
        (λ o.
          All IsSafeHypothesis o
          × (map (λ h. h.citations) o ≡ map (λ h. h.citations) (h ∷ hs))
          × (length o ≡ length (h ∷ hs)))
        (ok-injective _ refl e2)
        ((checked.safe, below.0), cc (checked.same_citations, below.1), omega (arith, below.2))

  check_ioc-ok :
      (i : ProposedIoc) {out : ProposedIoc} → check_ioc go text i ≡ ok out → IsSafeIoc out
  unfolding check_ioc
  check_ioc-ok i e =
      let (u, both, e1) = >>=-eq-ok _ _ e in
      let present =
        filled (clean text i.type max_field_len) (clean text i.value max_field_len)
          (guard-eq-ok _ _ both) in
      subst IsSafeIoc (ok-injective _ refl e1) (
        (present.0, length-clean text i.type max_field_len),
        (present.1, length-clean text i.value max_field_len),
      )

  check_iocs-ok :
      (is : List ProposedIoc) {out : List ProposedIoc}
      → check_iocs go text is ≡ ok out
      → All IsSafeIoc out × (length out ≡ length is)
  unfolding check_iocs
  check_iocs-ok [] e =
      subst (λ o. All IsSafeIoc o × (length o ≡ 0)) (ok-injective (ok []) refl e) (tt, refl)
  check_iocs-ok (i ∷ is) e =
      let (i', one, e1) = >>=-eq-ok (check_ioc go text i) _ e in
      let (rest, more, e2) = >>=-eq-ok (check_iocs go text is) _ e1 in
      let below = check_iocs-ok is more in
      subst (λ o. All IsSafeIoc o × (length o ≡ length (i ∷ is)))
        (ok-injective (ok (i' ∷ rest)) refl e2)
        ((check_ioc-ok i one, below.0), omega (arith, below.1))

  -- The proposal is safe, and its citations are those of `p`.
  pub IsFaithful : Proposal → Proposal → Type 0
  IsFaithful p out =
      IsSafe out × (map (λ h. h.citations) out.hypotheses ≡ map (λ h. h.citations) p.hypotheses)

  check_proposal-ok :
      (p : Proposal) {out : Proposal} → check_proposal go text p ≡ ok out → IsFaithful p out
  unfolding check_proposal IsFaithful
  check_proposal-ok p e =
      let (u, few, e1) =
        >>=-eq-ok
          (guard (leb (length p.hypotheses) max_hypotheses) (many_hypotheses (length p.hypotheses)))
          _ e in
      let (v, few_iocs, e2) =
        >>=-eq-ok (guard (leb (length p.iocs) max_iocs) (many_iocs (length p.iocs))) _ e1 in
      let (hs, hyps, e3) = >>=-eq-ok (check_hypotheses go text p.hypotheses) _ e2 in
      let (is, iocs, e4) = >>=-eq-ok (check_iocs go text p.iocs) _ e3 in
      let made : Proposal = record {
        summary = clean text p.summary max_summary_len;
        hypotheses = hs;
        iocs = is;
        needs_review = p.needs_review;
        review_reason = clean text p.review_reason max_summary_len;
      } in
      let (w, speaks, e5) = >>=-eq-ok (guard (not (says_nothing made)) empty_proposal) _ e4 in
      let h = check_hypotheses-ok p.hypotheses hyps in
      let i = check_iocs-ok p.iocs iocs in
      let is_safe : IsSafe made = record {
        summary = length-clean text p.summary max_summary_len;
        review_reason = length-clean text p.review_reason max_summary_len;
        few_hypotheses =
            omega (arith, h.2, leb→le (length p.hypotheses) max_hypotheses (guard-eq-ok _ _ few));
        hypotheses = h.0;
        few_iocs = omega (arith, i.1, leb→le (length p.iocs) max_iocs (guard-eq-ok _ _ few_iocs));
        iocs = i.0;
        speaks = ground (arith, guard-eq-ok (not (says_nothing made)) empty_proposal speaks);
      } in
      subst (IsFaithful p) (ok-injective (ok made) refl e5) (is_safe, h.1)

  -- What Validate lets through is within every cap, with hypotheses of a kind and a claim, the
  -- gate's confidence words and well-formed citations, and says something; it comes from one decoded
  -- proposal with nothing behind it, whose citations it keeps byte for byte.
  pub validate_proposal-IsSafe :
      (json : ProposalCodec) (raw : Str) (out : Proposal)
      → validate_proposal go text json raw ≡ ok out
      → (length raw ≤ max_proposal_bytes)
        × (p : Proposal) × (rest : Str) × (json.decode raw ≡ some (p, rest))
        × (json.at_eof rest ≡ true)
        × IsFaithful p out
  unfolding validate_proposal
  validate_proposal-IsSafe json raw out e =
      let (u, nonempty, e1) = >>=-eq-ok (guard (not (length raw == 0)) empty_proposal) _ e in
      let (v, small, e2) =
        >>=-eq-ok (guard (leb (length raw) max_proposal_bytes) proposal_oversize) _ e1 in
      let ((p, rest), decoded, e3) = >>=-eq-ok (or_undecodable (json.decode raw)) _ e2 in
      let (w, alone, e4) = >>=-eq-ok (guard (json.at_eof rest) trailing_after) _ e3 in
      (
        leb→le _ _ (guard-eq-ok _ _ small),
        p,
        rest,
        or_undecodable-eq-ok (json.decode raw) decoded,
        guard-eq-ok _ _ alone,
        check_proposal-ok p e4,
      )
