-- ===== src/Knowledge/Graph/Guard/Writes.antt =====
-- internal/knowledge/graph.go: sequences of writes to the graph.
use open_mal_lab.Common.{◌≡◌, Bool, false, true, Str, List, [], ◌∷◌}
use open_mal_lab.Knowledge.Platform.{Platform}
use open_mal_lab.Knowledge.Store.{Trust, ingest, curated}
use open_mal_lab.Knowledge.GraphStore.{Node, Edge, MemGraph, merge_node, merge_edge}
use open_mal_lab.Knowledge.Graph.{
  edge_id, decide_node, decide_edge, add_node, observe_node, link_curated, observe,
}
use open_mal_lab.Knowledge.Graph.Guard.{put_node-graph, link-graph}

-- One write: `AddNode`, `ObserveNode`, `Link` or `Observe`, with its arguments in their order.
pub data GraphWrite : Type 0 where
  adding : Str → Str → Str → List (Str × Str) → Str → GraphWrite
  noticing : Str → Str → Str → Str → GraphWrite
  linking : Str → Str → Str → Str → Str → Str → GraphWrite
  observing : Str → Str → Str → Str → Str → Str → GraphWrite

abbrev pub trust_of : GraphWrite → Trust
trust_of (adding _ _ _ _ _) = curated
trust_of (noticing _ _ _ _) = ingest
trust_of (linking _ _ _ _ _ _) = curated
trust_of (observing _ _ _ _ _ _) = ingest

unfoldable pub apply_write : Platform → MemGraph → GraphWrite → MemGraph
apply_write go m (adding kind key label attrs source) =
    (add_node go m kind key label attrs source).1
apply_write go m (noticing kind key label source) = (observe_node go m kind key label source).1
apply_write go m (linking fk fkey rel tk tkey source) =
    (link_curated go m fk fkey rel tk tkey source).1
apply_write go m (observing fk fkey rel tk tkey source) =
    (observe go m fk fkey rel tk tkey source).1

unfoldable pub replay_graph : Platform → MemGraph → List GraphWrite → MemGraph
unfolding apply_write
replay_graph go m [] = m
replay_graph go m (w ∷ ws) = replay_graph go (apply_write go m w) ws

-- A property that the merges keep, at the trust of the write, the write keeps.
pub apply_write-keeps :
    (go : Platform) (P : MemGraph → Type 0) (w : GraphWrite)
    → ((m : MemGraph) (f : Node) (only : Bool)
        → f.trust ≡ trust_of w
        → P m
        → P (merge_node m f.id (decide_node (trust_of w) only f)).1)
    → ((m : MemGraph) (e : Edge)
        → e.trust ≡ trust_of w
        → e.id ≡ edge_id go e.from e.rel e.to
        → P m
        → P (merge_edge m e.id (decide_edge (trust_of w) e)).1)
    → (m : MemGraph) → P m
    → P (apply_write go m w)
unfolding apply_write add_node observe_node link_curated observe
apply_write-keeps go P (adding kind key label attrs source) on_node on_edge m h =
    put_node-graph go m kind key label attrs source curated false P h (λ f t. on_node m f false t h)
apply_write-keeps go P (noticing kind key label source) on_node on_edge m h =
    put_node-graph go m kind key label [] source ingest false P h (λ f t. on_node m f false t h)
apply_write-keeps go P (linking fk fkey rel tk tkey source) on_node on_edge m h =
    link-graph go fk fkey rel tk tkey source curated P (λ g f t. on_node g f true t) m
      (λ g e t i j. on_edge g e t i) h
apply_write-keeps go P (observing fk fkey rel tk tkey source) on_node on_edge m h =
    link-graph go fk fkey rel tk tkey source ingest P (λ g f t. on_node g f true t) m
      (λ g e t i j. on_edge g e t i) h
