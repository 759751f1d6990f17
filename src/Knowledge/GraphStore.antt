-- ===== src/Knowledge/GraphStore.antt =====
-- internal/knowledge/graph.go: nodes, edges, and the in-memory graph with its atomic merges.
use open_mal_lab.Common.{
  ℕ, Bool, true, false, not, ◌&&◌, Str, List, [], ◌∷◌, ◌++◌, Option, none, some, leb, if◌then◌else◌,
  length, any, ◌==◌, str_eq,
}
use open_mal_lab.Common.Assoc.{lookup, insert}
use open_mal_lab.Common.Result.{Result, ok, err}
use open_mal_lab.Knowledge.Store.{Trust, is_curated, default_max_facts}

pub record Node : Type 0 where
  pub id : Str
  pub kind : Str
  pub key : Str
  pub label : Str
  pub attrs : List (Str × Str)
  pub trust : Trust
  pub source : Str

pub record Edge : Type 0 where
  pub id : Str
  pub from : Str
  pub to : Str
  pub rel : Str
  pub trust : Trust
  pub source : Str

-- `out_adj` maps a node to the set of its edges' ids.
pub record MemGraph : Type 0 where
  pub nodes : List (Str × Node)
  pub edges : List (Str × Edge)
  pub out_adj : List (Str × List Str)
  pub max : ℕ

-- A `max` that is not positive means the default; a negative one is read as 0 here.
unfoldable pub new_mem_graph_with_cap : ℕ → MemGraph
new_mem_graph_with_cap max = record {
  nodes = [];
  edges = [];
  out_adj = [];
  max = if max == 0 then default_max_facts else max;
}

unfoldable pub get_node : MemGraph → Str → Option Node
get_node m id = lookup id m.nodes

-- m.edges[id]
unfoldable pub get_edge : MemGraph → Str → Option Edge
get_edge m id = lookup id m.edges

abbrev pub max_ingest_out_degree : ℕ
max_ingest_out_degree = 4096

pub data GraphFull : Type 0 where
  node_capacity edge_capacity out_degree : GraphFull

-- What `MergeNode` does with the answer of `decide`.
unfoldable pub commit_node :
    MemGraph → Str → Option Node → Bool × Node → Result GraphFull Node × MemGraph
commit_node m id (some existing) (false, result) = (ok existing, m)
commit_node m id none (false, result) = (ok result, m)
commit_node m id (some existing) (true, result) =
    (ok result, record m { nodes = insert id result m.nodes })
commit_node m id none (true, result) =
    if not (is_curated result.trust) && leb m.max (length m.nodes)
    then (err node_capacity, m)
    else (ok result, record m { nodes = insert id result m.nodes })

unfoldable pub merge_node :
    MemGraph → Str → (Option Node → Bool × Node) → Result GraphFull Node × MemGraph
unfolding commit_node get_node
merge_node m id decide = commit_node m id (get_node m id) (decide (get_node m id))

-- m.outAdj[from]; a node without edges has no set
unfoldable pub adjacent : MemGraph → Str → List Str
adjacent m from = elim (lookup from m.out_adj) [ none ↦ [] | some ids ↦ ids ]

-- set[id] = true
unfoldable pub add_id : Str → List Str → List Str
add_id id ids = if any (str_eq id) ids then ids else ids ++ id ∷ []

-- The writes of `MergeEdge`: the edge, and its id under the node it leaves.
unfoldable pub write_edge : MemGraph → Str → Edge → Result GraphFull Edge × MemGraph
unfolding adjacent add_id
write_edge m id e = (
  ok e,
  record m {
    edges = insert id e m.edges;
    out_adj = insert e.from (add_id id (adjacent m e.from)) m.out_adj;
  },
)

unfoldable pub commit_edge :
    MemGraph → Str → Option Edge → Bool × Edge → Result GraphFull Edge × MemGraph
unfolding write_edge
commit_edge m id (some existing) (false, result) = (ok existing, m)
commit_edge m id none (false, result) = (ok result, m)
commit_edge m id (some existing) (true, result) = write_edge m id result
commit_edge m id none (true, result) =
    if is_curated result.trust
    then write_edge m id result
    else if leb m.max (length m.edges)
    then (err edge_capacity, m)
    else if leb max_ingest_out_degree (length (adjacent m result.from))
    then (err out_degree, m)
    else write_edge m id result

unfoldable pub merge_edge :
    MemGraph → Str → (Option Edge → Bool × Edge) → Result GraphFull Edge × MemGraph
unfolding commit_edge get_edge
merge_edge m id decide = commit_edge m id (get_edge m id) (decide (get_edge m id))

-- The edges of a set of ids; an id without an edge is passed over.
unfoldable pub edges_of : MemGraph → List Str → List Edge
unfolding get_edge
edges_of m [] = []
edges_of m (id ∷ ids) =
    let rest = edges_of m ids in elim (get_edge m id) [ none ↦ rest | some e ↦ e ∷ rest ]

-- Go's iteration over the set has no order; here it is the order of insertion.
unfoldable pub out_edges : MemGraph → Str → List Edge
unfolding edges_of adjacent
out_edges m from = edges_of m (adjacent m from)
