-- ===== src/Knowledge/Graph.antt =====
-- internal/knowledge/graph.go: the operations that write nodes and relations.
pub mod Guard
pub mod Walk
use open_mal_lab.Common.{
  ℕ, Bool, true, false, not, ◌&&◌, ◌||◌, Str, String, List, [], ◌∷◌, ◌++◌, Option, none, some, ltb,
  leb, if◌then◌else◌, length, any, ◌==◌, lit, is_lit,
}
use open_mal_lab.Common.Utf8.{has_control}
use open_mal_lab.Common.Result.{Result, ok, err, ◌>>=◌, ◌>>◌, guard}
use open_mal_lab.Knowledge.Platform.{Platform, short_sum}
use open_mal_lab.Knowledge.Keys.{max_key_len}
use open_mal_lab.Knowledge.Similarity.{max_label_len, max_source_len}
use open_mal_lab.Knowledge.Store.{Trust, ingest, curated, is_curated}
use open_mal_lab.Knowledge.Registry.{max_attrs, bad_attribute}
use open_mal_lab.Knowledge.GraphStore.{
  Node, Edge, MemGraph, GraphFull, get_node, merge_node, merge_edge,
}

-- A `NodeKind` and a `RelKind` are strings; only these are known.
abbrev known_node_kinds : List String
known_node_kinds = "sample" ∷ "ioc" ∷ "family" ∷ "technique" ∷ "campaign" ∷ "actor" ∷ "rule" ∷ []

abbrev known_rels : List String
known_rels =
    "has-ioc" ∷ "exhibits" ∷ "member-of" ∷ "matched" ∷ "seen-in" ∷ "uses" ∷ "attributed-to"
    ∷ "related-to" ∷ []

unfoldable pub known_node_kind : Str → Bool
known_node_kind kind = any (is_lit kind) known_node_kinds

unfoldable pub known_rel : Str → Bool
known_rel rel = any (is_lit rel) known_rels

unfoldable pub node_id : Platform → Str → Str → Str
unfolding short_sum
node_id go kind norm = lit "kn_" ++ short_sum go (lit "n" ++ 0 ∷ kind ++ 0 ∷ norm)

unfoldable pub edge_id : Platform → Str → Str → Str → Str
unfolding short_sum
edge_id go from rel to = lit "ke_" ++ short_sum go (lit "e" ++ 0 ∷ from ++ 0 ∷ rel ++ 0 ∷ to)

unfoldable pub normalize_node_key : Platform → Str → Str → Str
normalize_node_key go kind key =
    let trimmed = go.trim_space key in
    if is_lit kind "family" || is_lit kind "actor" || is_lit kind "campaign"
    then go.to_lower trimmed
    else if is_lit kind "technique"
    then go.to_upper trimmed
    else trimmed

unfoldable pub valid_node_key : Str → Bool
valid_node_key norm =
    not (length norm == 0) && leb (length norm) max_key_len && not (has_control norm)

pub data GraphError : Type 0 where
  unknown_node_kind unknown_relation malformed_key label_or_source many_attrs bad_attr : GraphError
  edge_source : GraphError
  graph_full : GraphFull → GraphError

-- The tests that `putNode` makes before it touches the store.
unfoldable pub check_node : Str → Str → Str → List (Str × Str) → Str → Result GraphError (Unit {0})
unfolding bad_attribute
check_node kind norm label attrs source = do
  guard (known_node_kind kind) unknown_node_kind
  guard (valid_node_key norm) malformed_key
  guard
      (not (
        ltb max_label_len (length label)
        || ltb max_source_len (length source)
        || has_control label
        || has_control source))
      label_or_source
  guard (leb (length attrs) max_attrs) many_attrs
  guard (not (any bad_attribute attrs)) bad_attr

-- The closure that `putNode` hands to `MergeNode`.
unfoldable pub decide_node : Trust → Bool → Node → Option Node → Bool × Node
decide_node trust only_if_absent incoming none = (true, incoming)
decide_node trust only_if_absent incoming (some existing) =
    if only_if_absent || is_curated existing.trust && not (is_curated trust)
    then (false, existing)
    else (true, incoming)

-- The store's refusal, as an error of the graph.
unfoldable pub lift_full :
    {A : Type 0} → Result GraphFull A × MemGraph → Result GraphError A × MemGraph
lift_full (ok a, m) = (ok a, m)
lift_full (err e, m) = (err (graph_full e), m)

unfoldable pub put_node :
    Platform
    → MemGraph
    → Str
    → Str
    → Str
    → List (Str × Str)
    → Str
    → Trust
    → Bool
    → Result GraphError Node × MemGraph
unfolding lift_full
put_node go m kind key label attrs source trust only_if_absent =
    let norm = normalize_node_key go kind key in
    let incoming : Node = record {
      id = node_id go kind norm;
      kind = kind;
      key = norm;
      label = go.trim_space label;
      attrs = attrs;
      trust = trust;
      source = source;
    } in
    elim (check_node kind norm label attrs source) [
      | err e ↦ (err e, m)
      | ok _ ↦ lift_full (merge_node m incoming.id (decide_node trust only_if_absent incoming))
    ]

unfoldable pub add_node :
    Platform
    → MemGraph
    → Str
    → Str
    → Str
    → List (Str × Str)
    → Str
    → Result GraphError Node × MemGraph
add_node go m kind key label attrs source = put_node go m kind key label attrs source curated false

unfoldable pub observe_node :
    Platform → MemGraph → Str → Str → Str → Str → Result GraphError Node × MemGraph
observe_node go m kind key label source = put_node go m kind key label [] source ingest false

-- func (g *Graph) Node
unfoldable pub node : Platform → MemGraph → Str → Str → Option Node
node go m kind key =
    let norm = normalize_node_key go kind key in
    if known_node_kind kind && valid_node_key norm then get_node m (node_id go kind norm) else none

-- The closure that `link` hands to `MergeEdge`: ingest never wins over a curated edge.
unfoldable pub decide_edge : Trust → Edge → Option Edge → Bool × Edge
decide_edge trust incoming none = (true, incoming)
decide_edge trust incoming (some existing) =
    if is_curated existing.trust && not (is_curated trust)
    then (false, existing)
    else (true, incoming)

-- The end of `link`, once both end points are there.
unfoldable pub join_nodes :
    Platform → MemGraph → Node → Str → Node → Str → Trust → Result GraphError Edge × MemGraph
unfolding lift_full
join_nodes go m from rel to source trust =
    let incoming : Edge = record {
      id = edge_id go from.id rel to.id;
      from = from.id;
      to = to.id;
      rel = rel;
      trust = trust;
      source = source;
    } in
    lift_full (merge_edge m incoming.id (decide_edge trust incoming))

unfoldable pub after_to :
    Platform
    → Node
    → Str
    → Str
    → Trust
    → Result GraphError Node × MemGraph
    → Result GraphError Edge × MemGraph
unfolding join_nodes
after_to go from rel source trust (err e, m) = (err e, m)
after_to go from rel source trust (ok to, m) = join_nodes go m from rel to source trust

-- A failure on the second end point leaves the first one in the graph.
unfoldable pub after_from :
    Platform
    → Str
    → Str
    → Str
    → Str
    → Trust
    → Result GraphError Node × MemGraph
    → Result GraphError Edge × MemGraph
unfolding after_to
after_from go rel to_kind to_key source trust (err e, m) = (err e, m)
after_from go rel to_kind to_key source trust (ok from, m) =
    after_to go from rel source trust (put_node go m to_kind to_key [] [] source trust true)

unfoldable pub link :
    Platform
    → MemGraph
    → Str
    → Str
    → Str
    → Str
    → Str
    → Str
    → Trust
    → Result GraphError Edge × MemGraph
unfolding after_from
link go m from_kind from_key rel to_kind to_key source trust =
    if not (known_rel rel)
    then (err unknown_relation, m)
    else if ltb max_source_len (length source) || has_control source
    then (err edge_source, m)
    else after_from go rel to_kind to_key source trust
        (put_node go m from_kind from_key [] [] source trust true)

-- func (g *Graph) Link
unfoldable pub link_curated :
    Platform → MemGraph → Str → Str → Str → Str → Str → Str → Result GraphError Edge × MemGraph
link_curated go m from_kind from_key rel to_kind to_key source =
    link go m from_kind from_key rel to_kind to_key source curated

-- func (g *Graph) Observe
unfoldable pub observe :
    Platform → MemGraph → Str → Str → Str → Str → Str → Str → Result GraphError Edge × MemGraph
observe go m from_kind from_key rel to_kind to_key source =
    link go m from_kind from_key rel to_kind to_key source ingest
