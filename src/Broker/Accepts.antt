-- ===== src/Broker/Accepts.antt =====
-- services/mal-broker/validate.go: the contract of the broker, apart from its code.
use open_mal_lab.Common.{
  ℕ, ◌+◌, ◌≤◌, ◌≡◌, refl, ◌↔◌, ◌⊎◌, Bool, true, Str, List, [], ◌∷◌, Option, none, some, arith, leb,
  length, take, all, All, lit, str_eq_iff, leb→le, le→leb, take_all, length-take_full,
}
use open_mal_lab.Common.Result.{ok, guard, >>_iff, >>=-eq-ok, guard-eq-ok}
use open_mal_lab.Broker.{
  max_input_bytes, max_findings, max_children, max_string_len, Finding, Child, Report, Reject,
  Codec, valid_verdict, is_hex, child_sha_matches, check_str, check_finding, check_findings,
  check_child, check_children, check_report, or_reject, validate, decode, trailing_data, oversize,
  encode, output_oversize,
}

-- One of the four words of the lattice.
abbrev pub IsVerdict : Str → Type 0
IsVerdict v =
    (v ≡ lit "BENIGN") ⊎ (v ≡ lit "UNKNOWN") ⊎ (v ≡ lit "SUSPICIOUS") ⊎ (v ≡ lit "MALICIOUS")

abbrev pub IsShort : Str → Type 0
IsShort s = length s ≤ max_string_len

abbrev pub IsGoodFinding : Finding → Type 0
IsGoodFinding f =
    IsVerdict f.verdict × IsShort f.engine × IsShort f.type × IsShort f.detail × IsShort f.attck

abbrev pub IsGoodChild : Child → Type 0
IsGoodChild c = (length c.sha256 ≡ 64) × All (λ b. is_hex b ≡ true) c.sha256 × IsShort c.name

-- The caps and shapes of the broker's contract.
pub record IsGood (rep : Report) : Type 0 where
  pub verdict : IsVerdict rep.verdict
  pub engine : IsShort rep.engine
  pub few_findings : length rep.findings ≤ max_findings
  pub findings : All IsGoodFinding rep.findings
  pub few_children : length rep.children ≤ max_children
  pub children : All IsGoodChild rep.children

valid_verdict_iff : (v : Str) → (valid_verdict v ≡ true) ↔ IsVerdict v
unfolding valid_verdict
valid_verdict_iff v = (
  λ h. ground (
    arith,
    str_eq_iff v (lit "BENIGN"),
    str_eq_iff v (lit "UNKNOWN"),
    str_eq_iff v (lit "SUSPICIOUS"),
    str_eq_iff v (lit "MALICIOUS"),
  ),
  λ h. ground (
    arith,
    str_eq_iff v (lit "BENIGN"),
    str_eq_iff v (lit "UNKNOWN"),
    str_eq_iff v (lit "SUSPICIOUS"),
    str_eq_iff v (lit "MALICIOUS"),
  ),
)

all_iff : {A : Type 0} (p : A → Bool) (xs : List A) → (all p xs ≡ true) ↔ All (λ x. p x ≡ true) xs
all_iff p [] = (λ h. tt, λ h. refl)
all_iff p (x ∷ xs) = (
  λ h. (ground arith, (all_iff p xs).0 (ground arith)),
  λ h. ground (arith, (all_iff p xs).1 h.1),
)

check_str_iff : (s : Str) → (check_str s ≡ ok tt) ↔ IsShort s
unfolding check_str
check_str_iff s = (λ h. ground arith, λ h. ground arith)

check_finding_iff : (i : ℕ) (f : Finding) → (check_finding i f ≡ ok tt) ↔ IsGoodFinding f
unfolding check_finding
check_finding_iff i f = (
  λ h. ground (
    arith,
    valid_verdict_iff f.verdict,
    check_str_iff f.engine,
    check_str_iff f.type,
    check_str_iff f.detail,
    check_str_iff f.attck,
  ),
  λ h. rw (
    (valid_verdict_iff f.verdict).1 h.0,
    (check_str_iff f.engine).1 h.1,
    (check_str_iff f.type).1 h.2,
    (check_str_iff f.detail).1 h.3,
    (check_str_iff f.attck).1 h.4,
  ),
)

check_findings_iff :
    (i : ℕ) (fs : List Finding) → (check_findings i fs ≡ ok tt) ↔ All IsGoodFinding fs
unfolding check_findings
check_findings_iff i [] = (λ h. tt, λ h. refl)
check_findings_iff i (f ∷ fs) =
    let both = >>_iff (check_finding i f) (check_findings (i + 1) fs) in
    (
      λ h. ((check_finding_iff i f).0 (both.0 h).0, (check_findings_iff (i + 1) fs).0 (both.0 h).1),
      λ h. both.1 ((check_finding_iff i f).1 h.0, (check_findings_iff (i + 1) fs).1 h.1),
    )

check_child_iff : (i : ℕ) (c : Child) → (check_child i c ≡ ok tt) ↔ IsGoodChild c
unfolding check_child child_sha_matches
check_child_iff i c = (
  λ h. ground (arith, all_iff is_hex c.sha256, check_str_iff c.name),
  λ h. rw (h.0, (all_iff is_hex c.sha256).1 h.1, (check_str_iff c.name).1 h.2),
)

check_children_iff : (i : ℕ) (cs : List Child) → (check_children i cs ≡ ok tt) ↔ All IsGoodChild cs
unfolding check_children
check_children_iff i [] = (λ h. tt, λ h. refl)
check_children_iff i (c ∷ cs) =
    let both = >>_iff (check_child i c) (check_children (i + 1) cs) in
    (
      λ h. ((check_child_iff i c).0 (both.0 h).0, (check_children_iff (i + 1) cs).0 (both.0 h).1),
      λ h. both.1 ((check_child_iff i c).1 h.0, (check_children_iff (i + 1) cs).1 h.1),
    )

check_report_iff : (rep : Report) → (check_report rep ≡ ok tt) ↔ IsGood rep
unfolding check_report
check_report_iff rep = (
  λ h. ground (
    arith,
    valid_verdict_iff rep.verdict,
    check_str_iff rep.engine,
    check_findings_iff 0 rep.findings,
    check_children_iff 0 rep.children,
  ),
  λ h. rw (
    (valid_verdict_iff rep.verdict).1 h.verdict,
    le→leb _ _ h.few_findings,
    (check_str_iff rep.engine).1 h.engine,
    (check_findings_iff 0 rep.findings).1 h.findings,
    le→leb _ _ h.few_children,
    (check_children_iff 0 rep.children).1 h.children,
  ),
)

-- `out` is the encoding of the one report that the stream is: within the byte cap, decoded strictly,
-- followed by nothing but what a decoder reads as the end of the input, of the contract's shape.
pub record IsContract (json : Codec) (stream out : Str) : Type 0 where
  pub rep : Report
  pub rest : Str
  pub within : length stream ≤ max_input_bytes
  pub decoded : json.decode stream ≡ some (rep, rest)
  pub alone : json.at_eof rest ≡ true
  pub good : IsGood rep
  pub encoded : json.encode rep ≡ some out
  pub out_within : length out ≤ max_input_bytes

or_reject-eq-ok :
    {A : Type 0} (e : Reject) (o : Option A) {a : A} → or_reject e o ≡ ok a → o ≡ some a
or_reject-eq-ok e none h = cc
or_reject-eq-ok e (some b) h = cc

module _ (json : Codec) (stream out : Str) where
  validate_sound : validate json stream ≡ ok out → IsContract json stream out
  unfolding validate
  validate_sound h =
      let input = take (max_input_bytes + 1) stream in
      let (p, d, k1) = >>=-eq-ok (or_reject decode (json.decode input)) _ h in
      let (_, eof, k2) = >>=-eq-ok (guard (json.at_eof p.1) trailing_data) _ k1 in
      let (_, size, k3) = >>=-eq-ok (guard (leb (length input) max_input_bytes) oversize) _ k2 in
      let (_, good, k4) = >>=-eq-ok (check_report p.0) _ k3 in
      let (buf, enc, k5) = >>=-eq-ok (or_reject encode (json.encode p.0)) _ k4 in
      let (_, fits, same) =
        >>=-eq-ok (guard (leb (length buf) max_input_bytes) output_oversize) _ k5 in
      let short : length stream ≤ max_input_bytes =
        length-take_full max_input_bytes stream (leb→le _ _ (guard-eq-ok _ _ size)) in
      let out_eq : buf ≡ out = cc in
      record {
        rep = p.0;
        rest = p.1;
        within = short;
        decoded =
            rw (take_all (max_input_bytes + 1) stream (omega arith)) at (or_reject-eq-ok _ _ d);
        alone = guard-eq-ok _ _ eof;
        good = (check_report_iff p.0).0 good;
        encoded = rw out_eq at (or_reject-eq-ok _ _ enc);
        out_within = rw out_eq at (leb→le _ _ (guard-eq-ok _ _ fits));
      }

  validate_complete : IsContract json stream out → validate json stream ≡ ok out
  unfolding validate
  validate_complete c = rw (
    take_all (max_input_bytes + 1) stream (omega (arith, c.within)),
    c.decoded,
    c.alone,
    le→leb _ _ c.within,
    (check_report_iff c.rep).1 c.good,
    c.encoded,
    le→leb _ _ c.out_within,
  )

  -- The broker accepts a stream, with the bytes `out`, exactly when the stream is one report of the
  -- contract, within the byte cap and followed by nothing, and `out` is its encoding and is within
  -- the cap too.
  pub validate_iff : (validate json stream ≡ ok out) ↔ IsContract json stream out
  validate_iff = (validate_sound, validate_complete)
