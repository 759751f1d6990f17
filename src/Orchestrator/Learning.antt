-- ===== src/Orchestrator/Learning.antt =====
-- services/mal-orchestrator/learn.go: a finalized analysis, written to the knowledge graph.
pub mod Tier
use open_mal_lab.Common.{
  ℕ, ◌+◌, Bool, true, false, ◌||◌, Str, List, [], ◌∷◌, ◌++◌, Option, none, some, ◌==◌,
  if◌then◌else◌, length, any, lit, str_eq,
}
use open_mal_lab.Common.Result.{Result, ok, err}
use open_mal_lab.Knowledge.Platform.{Platform}
use open_mal_lab.Knowledge.GraphStore.{Node, Edge, MemGraph}
use open_mal_lab.Knowledge.Graph.{GraphError, add_node, observe_node, link_curated, observe}
use open_mal_lab.Pipeline.Types.{Finding, SubmissionResult}

pub record LearnInput : Type 0 where
  pub result : SubmissionResult
  pub confirmed : Bool

-- The closures `node` and `edge`: a confirmed analysis is curated, any other is observed.
unfoldable pub learn_node :
    Platform → Bool → MemGraph → Str → Str → Str → Str → Result GraphError Node × MemGraph
learn_node go true g kind key label src = add_node go g kind key label [] src
learn_node go false g kind key label src = observe_node go g kind key label src

unfoldable pub learn_edge :
    Platform
    → Bool
    → MemGraph
    → Str
    → Str
    → Str
    → Str
    → Str
    → Str
    → Result GraphError Edge × MemGraph
learn_edge go true g fk fkey rel tk tkey src = link_curated go g fk fkey rel tk tkey src
learn_edge go false g fk fkey rel tk tkey src = observe go g fk fkey rel tk tkey src

-- The local variables of the loop over the findings.
pub record Learned : Type 0 where
  pub seen : List Str
  pub written : ℕ
  pub graph : MemGraph

-- if err == nil { written++ }
unfoldable pub count_write : {A : Type 0} → Learned → Result GraphError A × MemGraph → Learned
count_write st (err e, g) = record st { graph = g }
count_write st (ok a, g) = record st { written = st.written + 1; graph = g }

-- node(...) && edge(...): the edge is tried only if the node was stored.
unfoldable pub after_node :
    Platform → LearnInput → Str → Learned → Result GraphError Node × MemGraph → Learned
unfolding learn_edge count_write lit
after_node go input attck st (err e, g) = record st { graph = g }
after_node go input attck st (ok n, g) = count_write st (
    learn_edge go input.confirmed g (lit "sample") input.result.sha256 (lit "exhibits")
      (lit "technique") attck (lit "analysis:" ++ input.result.submission_id))

unfoldable pub learn_finding : Platform → LearnInput → Learned → Finding → Learned
unfolding after_node learn_node lit
learn_finding go input st f =
    if length f.attck == 0 || any (str_eq f.attck) st.seen
    then st
    else after_node go input f.attck (record st { seen = f.attck ∷ st.seen })
        (learn_node go input.confirmed st.graph (lit "technique") f.attck []
          (lit "analysis:" ++ input.result.submission_id))

unfoldable pub learn_findings : Platform → LearnInput → Learned → List Finding → Learned
unfolding learn_finding
learn_findings go input st [] = st
learn_findings go input st (f ∷ fs) = learn_findings go input (learn_finding go input st f) fs

-- The number of facts written, and the graph; without a graph the activity does nothing.
unfoldable pub ingest_learning_activity :
    Platform → Option MemGraph → LearnInput → ℕ × Option MemGraph
unfolding learn_findings learn_node count_write lit
ingest_learning_activity go none input = (0, none)
ingest_learning_activity go (some g) input =
    if length input.result.sha256 == 0
    then (0, some g)
    else let st =
        learn_findings go input
          (count_write (record { seen = []; written = 0; graph = g })
            (learn_node go input.confirmed g (lit "sample") input.result.sha256
              input.result.filename (lit "analysis:" ++ input.result.submission_id)))
          input.result.findings in
      (st.written, some st.graph)
