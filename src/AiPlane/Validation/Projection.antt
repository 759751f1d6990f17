-- ===== src/AiPlane/Validation/Projection.antt =====
-- internal/aiplane/contract.go: the size of the evidence, and its mark where it is cut.
use open_mal_lab.Common.{
  ℕ, zero, suc, ◌≤◌, ◌<◌, ◌≡◌, refl, true, false, List, [], ◌∷◌, arith, length, ap,
}
use open_mal_lab.Pipeline.Types.{Finding, SubmissionResult}
use open_mal_lab.AiPlane.Cleaning.{TextLibrary}
use open_mal_lab.AiPlane.Validation.{max_evidence_items, evidence_items, evidence_from}

module _ (text : TextLibrary) where
  evidence_items-cut :
      (room : ℕ) (fs : List Finding)
      → (length (evidence_items text room fs).0 ≤ room)
        × ((evidence_items text room fs).1 ≡ false
            → length (evidence_items text room fs).0 ≡ length fs)
        × (room < length fs → (evidence_items text room fs).1 ≡ true)
  unfolding evidence_items
  evidence_items-cut room [] = (omega arith, λ h. refl, λ h. absurd (omega arith))
  evidence_items-cut zero (f ∷ fs) = (omega arith, λ h. cc, λ h. refl)
  evidence_items-cut (suc room) (f ∷ fs) =
      let rest = evidence_items-cut room fs in
      (omega (arith, rest.0), λ h. ap (λ n. suc n) (rest.1 h), λ h. rest.2 (omega arith))

  -- The evidence has at most 2000 items; it is incomplete if the result was or if findings were left
  -- out; and evidence that is not incomplete has an item for every finding.
  pub evidence_from-bounded :
      (res : SubmissionResult)
      → (length (evidence_from text res).items ≤ max_evidence_items)
        × (res.incomplete ≡ true → (evidence_from text res).incomplete ≡ true)
        × (max_evidence_items < length res.findings → (evidence_from text res).incomplete ≡ true)
        × ((evidence_from text res).incomplete ≡ false
            → length (evidence_from text res).items ≡ length res.findings)
  unfolding evidence_from
  evidence_from-bounded res =
      let cut = evidence_items-cut max_evidence_items res.findings in
      (cut.0, λ h. rw h refl, λ h. ground (arith, cut.2 h), λ h. cut.1 (ground arith))
