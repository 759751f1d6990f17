-- ===== src/Knowledge/Graph/Guard/Merge.antt =====
-- internal/knowledge/graph.go: the merges of nodes and edges.
use open_mal_lab.Common.{
  ◌≡◌, Bool, true, false, Str, Option, none, some, arith, str_eq_iff, length, leb, not, ◌||◌, ◌&&◌,
  if◌then◌else◌,
}
use open_mal_lab.Common.Assoc.{lookup, insert, lookup-insert}
use open_mal_lab.Common.Result.{Result, ok}
use open_mal_lab.Knowledge.Store.{Trust, is_curated}
use open_mal_lab.Knowledge.GraphStore.{
  Node, Edge, MemGraph, GraphFull, get_node, merge_node, commit_node, get_edge, write_edge,
  commit_edge, merge_edge, max_ingest_out_degree, adjacent,
}
use open_mal_lab.Knowledge.Graph.{decide_node, decide_edge}

-- The store holds each node under its own id.
abbrev pub IsKeyed : MemGraph → Type 0
IsKeyed m = (id : Str) (n : Node) → get_node m id ≡ some n → n.id ≡ id

pub merge_node-IsKeyed :
    (m : MemGraph) (f : Node) (trust : Trust) (only : Bool)
    → IsKeyed m
    → IsKeyed (merge_node m f.id (decide_node trust only f)).1
unfolding merge_node get_node commit_node decide_node
merge_node-IsKeyed m f trust only h id n e =
    ground (arith, h id n, lookup-insert f.id id f m.nodes, str_eq_iff f.id id)

pub if_both :
    {A : Type 0} (Q : A → Type 0) (b : Bool) (x y : A) → Q x → Q y → Q (if b then x else y)
if_both Q true x y p q = p
if_both Q false x y p q = q

-- A merge leaves the graph as it is, or writes the node.
pub merge_node-rule :
    (m : MemGraph) (f : Node) (trust : Trust) (only : Bool) (Q : MemGraph → Type 0)
    → Q m
    → Q (record m { nodes = insert f.id f m.nodes })
    → Q (merge_node m f.id (decide_node trust only f)).1
unfolding merge_node get_node commit_node decide_node
merge_node-rule m f trust only Q same new = by_old (lookup f.id m.nodes)
  where
    by_write :
        (x : Node) (b : Bool)
        → Q (commit_node m f.id (some x) (if b then (false, x) else (true, f))).1
    by_write x true = same
    by_write x false = new

    by_old : (o : Option Node) → Q (commit_node m f.id o (decide_node trust only f o)).1
    by_old none =
        if_both (λ (t : Result GraphFull Node × MemGraph). Q t.1)
          (not (is_curated f.trust) && leb m.max (length m.nodes)) _ _ same new
    by_old (some x) = by_write x (only || is_curated x.trust && not (is_curated trust))

-- A merge leaves the graph as it is, or writes the edge.
pub merge_edge-rule :
    (m : MemGraph) (e : Edge) (trust : Trust) (Q : MemGraph → Type 0)
    → Q m
    → Q (write_edge m e.id e).1
    → Q (merge_edge m e.id (decide_edge trust e)).1
unfolding merge_edge get_edge commit_edge decide_edge
merge_edge-rule m e trust Q same new = by_old (lookup e.id m.edges)
  where
    R : Result GraphFull Edge × MemGraph → Type 0
    R t = Q t.1

    by_write :
        (x : Edge) (b : Bool)
        → Q (commit_edge m e.id (some x) (if b then (false, x) else (true, e))).1
    by_write x true = same
    by_write x false = new

    by_old : (o : Option Edge) → Q (commit_edge m e.id o (decide_edge trust e o)).1
    by_old none = if_both R (is_curated e.trust) _ _ new (
        if_both R (leb m.max (length m.edges)) _ _ same
          (if_both R (leb max_ingest_out_degree (length (adjacent m e.from))) _ _ same new))
    by_old (some x) = by_write x (is_curated x.trust && not (is_curated trust))

pub merge_node-id :
    (m : MemGraph) (f n : Node) (trust : Trust) (only : Bool)
    → IsKeyed m
    → (merge_node m f.id (decide_node trust only f)).0 ≡ ok n
    → n.id ≡ f.id
unfolding merge_node get_node commit_node decide_node
merge_node-id m f n trust only h e = ground (arith, h f.id n)
