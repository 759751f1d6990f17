-- ===== src/Orchestrator/Activity/Decoded.antt =====
-- services/mal-orchestrator/activity.go: the report that comes out of the broker.
use mathlib.Core.Path.{subst}
use open_mal_lab.Orchestrator.Workflow.{empty_report}
use open_mal_lab.Common.{
  ◌≡◌, ◌≢◌, refl, sym, ap, ◌∙◌, inl, inr, true, false, Str, List, [], ◌∷◌, ◌++◌, map, arith, All,
  lit, str_eq, str_eq_iff, append_assoc, append-nil, if◌then◌else◌, Bool-cases,
}
use open_mal_lab.Broker.{Report}
use open_mal_lab.Broker as Broker
use open_mal_lab.Broker.Accepts.{IsVerdict, IsGood, IsGoodFinding}
use open_mal_lab.Pipeline.Verdict.{parse_verdict, to_string}
use open_mal_lab.Pipeline.Types.{Finding, EngineReport}
use open_mal_lab.Orchestrator.Activity.{map_finding, map_findings, map_report}

parse-IsVerdict :
    (v : Str) → IsVerdict v → ((parse_verdict v).1 ≡ true) × (to_string (parse_verdict v).0 ≡ v)
unfolding parse_verdict to_string str_eq lit
parse-IsVerdict v (inl e) = rw e (refl, refl)
parse-IsVerdict v (inr (inl e)) = rw e (refl, refl)
parse-IsVerdict v (inr (inr (inl e))) = rw e (refl, refl)
parse-IsVerdict v (inr (inr (inr e))) = rw e (refl, refl)

parsed-IsVerdict : (v : Str) → (parse_verdict v).1 ≡ true → IsVerdict v
unfolding parse_verdict
parsed-IsVerdict v h = ground (
  arith,
  str_eq_iff v (lit "BENIGN"),
  str_eq_iff v (lit "UNKNOWN"),
  str_eq_iff v (lit "SUSPICIOUS"),
  str_eq_iff v (lit "MALICIOUS"),
)

map_findings_lem :
    (fs : List Broker.Finding) (rep : EngineReport)
    → ((map_findings fs rep).findings ≡ rep.findings ++ map map_finding fs)
      × ((map_findings fs rep).verdict ≡ rep.verdict)
unfolding map_findings
map_findings_lem [] rep = (sym (append-nil rep.findings), refl)
map_findings_lem (f ∷ fs) rep =
    let h = map_findings_lem fs (record rep {
      incomplete = if (parse_verdict f.verdict).1 then rep.incomplete else true;
      findings = rep.findings ++ map_finding f ∷ [];
    }) in
    (h.0 ∙ append_assoc rep.findings (map_finding f ∷ []) (map map_finding fs), h.1)

differ : true ≢ false
differ e = cc

map_findings-incomplete :
    (fs : List Broker.Finding) (rep : EngineReport)
    → (map_findings fs rep).incomplete ≡ false
    → (rep.incomplete ≡ false) × All (λ (f : Broker.Finding). IsVerdict f.verdict) fs
unfolding map_findings
map_findings-incomplete [] rep h = (h, tt)
map_findings-incomplete (f ∷ fs) rep h =
    let rest =
      map_findings-incomplete fs
        (record rep {
          incomplete = if (parse_verdict f.verdict).1 then rep.incomplete else true;
          findings = rep.findings ++ map_finding f ∷ [];
        })
        h in
    elim (Bool-cases (parse_verdict f.verdict).1) [
      | inl p ↦ (rw p at rest.0, (parsed-IsVerdict f.verdict p, rest.1))
      | inr p ↦ absurd (differ (rw p at rest.0))
    ]

map_findings_keeps :
    (fs : List Broker.Finding) (rep : EngineReport)
    → All IsGoodFinding fs
    → (map_findings fs rep).incomplete ≡ rep.incomplete
unfolding map_findings
map_findings_keeps [] rep h = refl
map_findings_keeps (f ∷ fs) rep h =
    map_findings_keeps fs
      (record rep {
        incomplete = if (parse_verdict f.verdict).1 then rep.incomplete else true;
        findings = rep.findings ++ map_finding f ∷ [];
      })
      h.1
    ∙ rw ((parse-IsVerdict f.verdict h.0.0).0) refl

-- A finding says what the broker's finding says.
abbrev pub Says : Broker.Finding → Finding → Type 0
Says f g =
    (g.engine ≡ f.engine)
    × (g.type ≡ f.type)
    × (g.detail ≡ f.detail)
    × (g.attck ≡ f.attck)
    × (to_string g.verdict ≡ f.verdict)

abbrev pub AllSay : List Broker.Finding → List Finding → Type 0
AllSay [] [] = Unit
AllSay [] (g ∷ gs) = ⊥
AllSay (f ∷ fs) [] = ⊥
AllSay (f ∷ fs) (g ∷ gs) = Says f g × AllSay fs gs

map-AllSay : (fs : List Broker.Finding) → All IsGoodFinding fs → AllSay fs (map map_finding fs)
unfolding map_finding
map-AllSay [] h = tt
map-AllSay (f ∷ fs) h =
    ((refl, refl, refl, refl, (parse-IsVerdict f.verdict h.0.0).1), map-AllSay fs h.1)

-- A report that meets the broker's contract goes through the mapping as it is: the words of its verdicts, its findings in
-- their order, and whether it is incomplete. And a mapped report that is not marked as incomplete comes from
-- one that was not, and in which each verdict is a word of the lattice.
pub map_report_lem :
    (br : Report)
    → (IsGood br
        → (to_string (map_report br).verdict ≡ br.verdict)
          × ((map_report br).incomplete ≡ br.incomplete)
          × AllSay br.findings (map_report br).findings)
      × ((map_report br).incomplete ≡ false
          → (br.incomplete ≡ false)
            × IsVerdict br.verdict
            × All (λ (f : Broker.Finding). IsVerdict f.verdict) br.findings)
unfolding map_report
map_report_lem br = (good, closed)
  where
    first_report : EngineReport
    first_report = record empty_report {
      engine = br.engine;
      incomplete = if (parse_verdict br.verdict).1 then br.incomplete else true;
      verdict = (parse_verdict br.verdict).0;
    }

    good :
        IsGood br
        → (to_string (map_findings br.findings first_report).verdict ≡ br.verdict)
          × ((map_findings br.findings first_report).incomplete ≡ br.incomplete)
          × AllSay br.findings (map_findings br.findings first_report).findings
    good g =
        let word = parse-IsVerdict br.verdict g.verdict in
        (
          ap to_string (map_findings_lem br.findings first_report).1 ∙ word.1,
          map_findings_keeps br.findings first_report g.findings ∙ rw (word.0) refl,
          subst (AllSay br.findings) (sym (map_findings_lem br.findings first_report).0)
              (map-AllSay br.findings g.findings),
        )

    closed :
        (map_findings br.findings first_report).incomplete ≡ false
        → (br.incomplete ≡ false)
          × IsVerdict br.verdict
          × All (λ (f : Broker.Finding). IsVerdict f.verdict) br.findings
    closed h =
        let rest = map_findings-incomplete br.findings first_report h in
        elim (Bool-cases (parse_verdict br.verdict).1) [
          | inl p ↦ (rw p at rest.0, parsed-IsVerdict br.verdict p, rest.1)
          | inr p ↦ absurd (differ (rw p at rest.0))
        ]
