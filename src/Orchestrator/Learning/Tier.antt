-- ===== src/Orchestrator/Learning/Tier.antt =====
-- services/mal-orchestrator/learn.go: the tier that an analysis is recorded in.
use open_mal_lab.Common.{
  ◌≡◌, refl, false, Str, List, [], ◌∷◌, ◌++◌, some, lit, ◌||◌, ◌==◌, length, any, str_eq,
  Bool-cases, inl, inr,
}
use open_mal_lab.Common.Result.{Result, ok, err}
use open_mal_lab.Knowledge.Platform.{Platform}
use open_mal_lab.Knowledge.GraphStore.{Node, MemGraph}
use open_mal_lab.Knowledge.Graph.{GraphError}
use open_mal_lab.Knowledge.Graph.Guard.Writes.{GraphWrite, noticing, observing, apply_write}
use open_mal_lab.Knowledge.Graph.Guard.Poisoning.{IsObservation}
use open_mal_lab.Pipeline.Types.{Finding}
use open_mal_lab.Orchestrator.Learning.{
  LearnInput, learn_node, learn_edge, Learned, count_write, after_node, learn_finding,
  learn_findings, ingest_learning_activity,
}

-- A property of the graph that observations keep, recording an unconfirmed analysis keeps.
module _ (go : Platform) (P : MemGraph → Type 0)
    (observed : (w : GraphWrite) (g : MemGraph) → IsObservation w → P g → P (apply_write go g w))
    (input : LearnInput) (unconfirmed : input.confirmed ≡ false) where
  node-keeps :
      (g : MemGraph) (kind key label src : Str)
      → P g
      → P (learn_node go input.confirmed g kind key label src).1
  unfolding learn_node
  node-keeps g kind key label src h =
      rw unconfirmed (unfold apply_write in observed (noticing kind key label src) g refl h)

  edge-keeps :
      (g : MemGraph) (fk fkey rel tk tkey src : Str)
      → P g
      → P (learn_edge go input.confirmed g fk fkey rel tk tkey src).1
  unfolding learn_edge
  edge-keeps g fk fkey rel tk tkey src h =
      rw unconfirmed (unfold apply_write in observed (observing fk fkey rel tk tkey src) g refl h)

  count-keeps :
      {A : Type 0} (st : Learned) (t : Result GraphError A × MemGraph)
      → P t.1
      → P (count_write st t).graph
  unfolding count_write
  count-keeps st (ok a, g) h = h
  count-keeps st (err e, g) h = h

  finding-keeps : (st : Learned) (f : Finding) → P st.graph → P (learn_finding go input st f).graph
  unfolding learn_finding
  finding-keeps st f h = elim (Bool-cases (length f.attck == 0 || any (str_eq f.attck) st.seen)) [
    | inl skip ↦ rw skip h
    | inr new ↦ rw new (
        by_node
          (learn_node go input.confirmed st.graph (lit "technique") f.attck []
            (lit "analysis:" ++ input.result.submission_id))
          (node-keeps st.graph (lit "technique") f.attck []
            (lit "analysis:" ++ input.result.submission_id) h))
  ]
    where
      by_node :
          (t : Result GraphError Node × MemGraph)
          → P t.1
          → P (after_node go input f.attck (record st { seen = f.attck ∷ st.seen }) t).graph
      by_node (err e, g) p = unfold after_node in p
      by_node (ok n, g) p =
          unfold after_node in
          count-keeps (record st { seen = f.attck ∷ st.seen })
            (learn_edge go input.confirmed g (lit "sample") input.result.sha256 (lit "exhibits")
              (lit "technique") f.attck (lit "analysis:" ++ input.result.submission_id))
            (edge-keeps g (lit "sample") input.result.sha256 (lit "exhibits") (lit "technique")
              f.attck (lit "analysis:" ++ input.result.submission_id) p)

  findings-keeps :
      (st : Learned) (fs : List Finding) → P st.graph → P (learn_findings go input st fs).graph
  unfolding learn_findings
  findings-keeps st [] h = h
  findings-keeps st (f ∷ fs) h =
      findings-keeps (learn_finding go input st f) fs (finding-keeps st f h)

  pub learning-keeps :
      (m : MemGraph)
      → P m
      → (g : MemGraph) × ((ingest_learning_activity go (some m) input).1 ≡ some g) × P g
  unfolding ingest_learning_activity
  learning-keeps m h = elim (Bool-cases (length input.result.sha256 == 0)) [
    | inl z ↦ rw z (m, refl, h)
    | inr z ↦ rw z (
      _,
      refl,
      findings-keeps
          (count_write (record { seen = []; written = 0; graph = m })
            (learn_node go input.confirmed m (lit "sample") input.result.sha256
              input.result.filename (lit "analysis:" ++ input.result.submission_id)))
          input.result.findings
          (count-keeps (record { seen = []; written = 0; graph = m })
            (learn_node go input.confirmed m (lit "sample") input.result.sha256
              input.result.filename (lit "analysis:" ++ input.result.submission_id))
            (node-keeps m (lit "sample") input.result.sha256 input.result.filename
              (lit "analysis:" ++ input.result.submission_id) h)),
    )
  ]
