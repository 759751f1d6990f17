-- ===== src/AiPlane/Validation/Safe.antt =====
-- internal/aiplane/contract.go: the shape of a proposal within the caps, and the length of
-- cleaned text.
use mathlib.Core.List.{reverse}
use open_mal_lab.Common.{
  ℕ, ◌≤◌, ◌<◌, ◌≡◌, ◌⊎◌, inl, inr, true, false, Str, [], ◌∷◌, arith, leb, length, length-reverse,
  length-take-le, take, lit, str_eq_iff, All, leb→le, Bool-cases,
}
use open_mal_lab.Knowledge.Platform.{Platform}
use open_mal_lab.AiPlane.Calibration.{norm_confidence}
use open_mal_lab.AiPlane.Cleaning.{TextLibrary, defang, trim_invalid, clean}
use open_mal_lab.AiPlane.Contract.{Hypothesis, ProposedIoc, Proposal}
use open_mal_lab.AiPlane.Validation.{
  max_summary_len, max_claim_len, max_field_len, max_hypotheses, max_iocs, max_citations,
  citation_well_formed, says_nothing,
}

length-trim_invalid : (s : Str) → length (trim_invalid s) ≤ length s
unfolding trim_invalid
length-trim_invalid [] = omega arith
length-trim_invalid (b ∷ s) = ground (arith, length-trim_invalid s)

pub length-clean : (text : TextLibrary) (s : Str) (n : ℕ) → length (clean text s n) ≤ n
unfolding clean
length-clean text s n = elim (Bool-cases (leb (length (defang text s)) n)) [
  | inl e ↦ rw e (leb→le _ _ e)
  | inr e ↦ rw e (
      omega (
        arith,
        length-reverse {0} (trim_invalid (reverse (take n (defang text s)))),
        length-trim_invalid (reverse (take n (defang text s))),
        length-reverse {0} (take n (defang text s)),
        length-take-le {0} n (defang text s),
      ))
]

-- One of the three words of the gate.
abbrev pub IsConfidence : Str → Type 0
IsConfidence c = (c ≡ lit "LOW") ⊎ ((c ≡ lit "MEDIUM") ⊎ (c ≡ lit "HIGH"))

pub norm_confidence-IsConfidence : (go : Platform) (c : Str) → IsConfidence (norm_confidence go c)
unfolding norm_confidence
norm_confidence-IsConfidence go c =
    let token = go.to_upper (go.trim_space c) in
    ground (
      arith,
      str_eq_iff token (lit "LOW"),
      str_eq_iff token (lit "MEDIUM"),
      str_eq_iff token (lit "HIGH"),
    )

abbrev pub IsField : ℕ → Str → Type 0
IsField n s = (0 < length s) × (length s ≤ n)

pub record IsSafeHypothesis (h : Hypothesis) : Type 0 where
  pub kind : IsField max_field_len h.kind
  pub claim : IsField max_claim_len h.claim
  pub confidence : IsConfidence h.confidence
  pub few_citations : length h.citations ≤ max_citations
  pub citations : All (λ c. citation_well_formed c ≡ true) h.citations

abbrev pub IsSafeIoc : ProposedIoc → Type 0
IsSafeIoc i = IsField max_field_len i.type × IsField max_field_len i.value

-- A proposal within the caps, that says something.
pub record IsSafe (p : Proposal) : Type 0 where
  pub summary : length p.summary ≤ max_summary_len
  pub review_reason : length p.review_reason ≤ max_summary_len
  pub few_hypotheses : length p.hypotheses ≤ max_hypotheses
  pub hypotheses : All IsSafeHypothesis p.hypotheses
  pub few_iocs : length p.iocs ≤ max_iocs
  pub iocs : All IsSafeIoc p.iocs
  pub speaks : says_nothing p ≡ false
