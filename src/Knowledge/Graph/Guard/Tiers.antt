-- ===== src/Knowledge/Graph/Guard/Tiers.antt =====
-- internal/knowledge/graph.go: graphs with the same curated part.
use open_mal_lab.Common.{◌≡◌, inl, inr, ◌∙◌, Bool, Str, some, arith, str_eq_iff}
use open_mal_lab.Common.Assoc.{insert, lookup-insert}
use open_mal_lab.Knowledge.Platform.{Platform}
use open_mal_lab.Knowledge.Store.{ingest, curated}
use open_mal_lab.Knowledge.GraphStore.{
  Node, Edge, MemGraph, get_node, get_edge, merge_node, write_edge, merge_edge,
}
use open_mal_lab.Knowledge.Graph.{decide_node, decide_edge}
use open_mal_lab.Knowledge.Graph.Guard.Merge.{merge_node-rule, merge_edge-rule}
use open_mal_lab.Knowledge.Graph.Guard.Writes.{GraphWrite, trust_of, apply_write, apply_write-keeps}
use open_mal_lab.Knowledge.Graph.Guard.Poisoning.{
  Keeps, IsObservation, apply-Keeps, merge_edge-curated,
}

-- The curated nodes and edges of the second graph are those of the first.
pub record SameCurated (m g : MemGraph) : Type 0 where
  pub keeps : Keeps m g
  pub nodes :
      (id : Str) (n : Node) → get_node g id ≡ some n → n.trust ≡ curated → get_node m id ≡ some n
  pub edges :
      (id : Str) (e : Edge) → get_edge g id ≡ some e → e.trust ≡ curated → get_edge m id ≡ some e

abbrev OldNodes : MemGraph → MemGraph → Type 0
OldNodes m g =
    (id : Str) (n : Node) → get_node g id ≡ some n → n.trust ≡ curated → get_node m id ≡ some n

abbrev OldEdges : MemGraph → MemGraph → Type 0
OldEdges m g =
    (id : Str) (e : Edge) → get_edge g id ≡ some e → e.trust ≡ curated → get_edge m id ≡ some e

merge_node-OldNodes :
    (m g : MemGraph) (f : Node) (only : Bool)
    → f.trust ≡ ingest
    → OldNodes m g
    → OldNodes m (merge_node g f.id (decide_node ingest only f)).1
merge_node-OldNodes m g f only t h = merge_node-rule g f ingest only (OldNodes m) h written
  where
    written : OldNodes m (record g { nodes = insert f.id f g.nodes })
    written id n k c =
        unfold get_node in
        ground (arith, h id n, lookup-insert f.id id f g.nodes, str_eq_iff f.id id)

merge_edge-OldEdges :
    (m g : MemGraph) (e : Edge)
    → e.trust ≡ ingest
    → OldEdges m g
    → OldEdges m (merge_edge g e.id (decide_edge ingest e)).1
merge_edge-OldEdges m g e t h id x k c = elim (merge_edge-curated g e x ingest id t k c) [
  | inl (_, other) ↦ cc
  | inr old ↦ h id x old c
]

pub observation-SameCurated :
    (go : Platform) (m : MemGraph) (w : GraphWrite) (g : MemGraph)
    → IsObservation w
    → SameCurated m g
    → SameCurated m (apply_write go g w)
observation-SameCurated go m w g o h = record {
  keeps = apply-Keeps go m g w o h.keeps;
  nodes =
      apply_write-keeps go (OldNodes m) w
        (λ x f only t. rw o (merge_node-OldNodes m x f only (t ∙ o)))
        (λ x e t i p.
          merge_edge-rule x e (trust_of w) (OldNodes m) p
            (unfold write_edge in unfold get_node in p))
        g h.nodes;
  edges =
      apply_write-keeps go (OldEdges m) w
        (λ x f only t p.
          merge_node-rule x f (trust_of w) only (OldEdges m) p (unfold get_edge in p))
        (λ x e t i. rw o (merge_edge-OldEdges m x e (t ∙ o))) g h.edges;
}

pub self-SameCurated : (m : MemGraph) → SameCurated m m
self-SameCurated m = record {
  keeps = record { nodes = λ id n k c. k; edges = λ id e k c. k };
  nodes = λ id n k c. k;
  edges = λ id e k c. k;
}
