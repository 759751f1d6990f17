-- ===== src/Tests/Samples.antt =====
-- Concrete values for the parameters of the model.
use open_mal_lab.Common.{false, Str, List, [], ◌∷◌, none, some, lit}
use open_mal_lab.Pipeline.Verdict.{Verdict, malicious, unknown}
use open_mal_lab.Pipeline.Confidence.{Confidence, low, high}
use open_mal_lab.Pipeline.Types.{SubmissionInput, Finding, Child, EngineReport}
use open_mal_lab.Orchestrator.Workflow.{ident, yara, capa, die, floss, detonate, extract}
use open_mal_lab.Orchestrator.Walk.{Activities}
use open_mal_lab.Knowledge.Platform.{Platform}
use open_mal_lab.Knowledge.Store.{curated, Fact}
use open_mal_lab.Knowledge.Keys.{fact_id}
use open_mal_lab.Knowledge.Registry.{Registry}

abbrev pub finding : Str → Verdict → Confidence → Finding
finding type v c = record {
  engine = lit "mal-static";
  type = type;
  detail = lit "pebin";
  attck = [];
  verdict = v;
  confidence = c;
  path = [];
}

abbrev pub submission : SubmissionInput
submission = record {
  submission_id = lit "s1";
  domain_id = lit "d1";
  sha256 = lit "aa";
  scratch_path = [];
  filename = lit "a.zip";
  detonate = false;
}

abbrev report : List Finding → List Child → EngineReport
report fs cs = record {
  engine = lit "e";
  findings = fs;
  children = cs;
  verdict = unknown;
  incomplete = false;
  ingested_bytes = 10;
}

-- The identification finds a PE file, yara fails, the extraction gives a child with a hostile name,
-- and the other engines report a malicious finding.
abbrev pub engines : Activities
engines ident n i = some (report (finding (lit "file-type") unknown low ∷ []) [])
engines yara n i = none
engines extract n i = some (report [] (record { sha256 = lit "bb"; size = 3; name = 10 ∷ [] } ∷ []))
engines capa n i = some (report (finding (lit "capability") malicious high ∷ []) [])
engines die n i = some (report [] [])
engines floss n i = some (report [] [])
engines detonate n i = none

abbrev pub platform : Platform
platform = record { sha256 = λ s. s; trim_space = λ s. s; to_lower = λ s. s; to_upper = λ s. s }

abbrev pub fact : Fact
fact = record {
  id = fact_id platform (lit "family") (lit "emotet");
  kind = lit "family";
  key = lit "emotet";
  label = lit "Emotet";
  attrs = [];
  trust = curated;
  source = lit "seed";
}

abbrev pub registry : Registry
registry = record { store = record { facts = (fact.id, fact) ∷ []; max = 10 }; sim = none }
