-- ===== src/Knowledge/Graph/Guard/Index.antt =====
-- internal/knowledge/graph.go: the index of the edges by the node they leave.
use mathlib.Core.List.{Memᴰ}
use mathlib.Core.List.Memᴰ
use mathlib.Core.Option.{some-injective}
use mathlib.Core.Path.{subst}
use open_mal_lab.Common.{
  ap, in_cons, ℕ, ◌≡◌, ◌⊎◌, inl, inr, refl, sym, ◌∙◌, Bool, true, Str, List, [], ◌∷◌, Option, none,
  some, arith, str_eq, str_eq_iff, str_eq_refl, any, Bool-cases, if◌then◌else◌,
}
use open_mal_lab.Common.Assoc.{lookup, lookup-insert}
use open_mal_lab.Knowledge.Platform.{Platform}
use open_mal_lab.Knowledge.Store.{Trust}
use open_mal_lab.Knowledge.GraphStore.{
  Node, Edge, MemGraph, get_edge, merge_node, get_node, adjacent, add_id, write_edge, merge_edge,
  edges_of, out_edges, new_mem_graph_with_cap,
}
use open_mal_lab.Knowledge.Graph.{edge_id, decide_node, decide_edge}
use open_mal_lab.Knowledge.Graph.Guard.Merge.{
  IsKeyed, merge_node-IsKeyed, merge_node-rule, merge_edge-rule,
}
use open_mal_lab.Knowledge.Graph.Guard.Writes.{
  GraphWrite, trust_of, apply_write, apply_write-keeps, replay_graph,
}

in_add_id : (id j : Str) (ids : List Str) → Memᴰ j ids → Memᴰ j (add_id id ids)
unfolding add_id
in_add_id id j ids h = elim (Bool-cases (any (str_eq id) ids)) [
  | inl e ↦ rw e h
  | inr e ↦ rw e (Memᴰ.append_left (id ∷ []) h)
]

in_any : (id : Str) (ids : List Str) → any (str_eq id) ids ≡ true → Memᴰ id ids
in_any id [] h = cc
in_any id (j ∷ ids) h = elim (Bool-cases (str_eq id j)) [
  | inl e ↦ Memᴰ.head ((str_eq_iff id j).0 e)
  | inr e ↦ Memᴰ.tail (in_any id ids (ground arith))
]

in_add_id_self : (id : Str) (ids : List Str) → Memᴰ id (add_id id ids)
unfolding add_id
in_add_id_self id ids = elim (Bool-cases (any (str_eq id) ids)) [
  | inl e ↦ rw e (in_any id ids e)
  | inr e ↦ rw e (Memᴰ.append_right ids (Memᴰ.head refl))
]

in_edges_of :
    (m : MemGraph) (id : Str) (e : Edge) (ids : List Str)
    → get_edge m id ≡ some e
    → Memᴰ id ids
    → Memᴰ e (edges_of m ids)
unfolding edges_of
in_edges_of m id e [] k h = absurd (Memᴰ.not-nil h)
in_edges_of m id e (j ∷ ids) k h = by_edge (get_edge m j) refl (in_edges_of m id e ids k)
  where
    by_edge :
        (o : Option Edge)
        → get_edge m j ≡ o
        → (Memᴰ id ids → Memᴰ e (edges_of m ids))
        → Memᴰ e
            (elim o as (λ _. List Edge) [ none ↦ edges_of m ids | some e' ↦ e' ∷ edges_of m ids ])
    by_edge none a rest = elim (in_cons.0 h) [ inl same ↦ cc | inr t ↦ rest t ]
    by_edge (some e') a rest = elim (in_cons.0 h) [
      | inl same ↦ Memᴰ.head (some-injective _ _ (sym k ∙ ap (get_edge m) same ∙ a))
      | inr t ↦ Memᴰ.tail (rest t)
    ]

-- The set of a node after an edge was written.
adjacent-write :
    (m : MemGraph) (id from : Str) (e : Edge)
    → adjacent (write_edge m id e).1 from
      ≡ (if str_eq e.from from then add_id id (adjacent m e.from) else adjacent m from)
unfolding adjacent write_edge
adjacent-write m id from e =
    ground (arith, lookup-insert e.from from (add_id id (adjacent m e.from)) m.out_adj)

in_adjacent :
    (m : MemGraph) (id from j : Str) (e : Edge)
    → Memᴰ j (adjacent m from)
    → Memᴰ j (adjacent (write_edge m id e).1 from)
in_adjacent m id from j e h = rw adjacent-write (elim (Bool-cases (str_eq e.from from)) [
  | inl y ↦
      rw y (
        in_add_id id j _
          (subst (λ x. Memᴰ j (adjacent m x)) (sym ((str_eq_iff e.from from).0 y)) h))
  | inr other ↦ rw other h
])

in_adjacent_self :
    (m : MemGraph) (id : Str) (e : Edge) → Memᴰ id (adjacent (write_edge m id e).1 e.from)
in_adjacent_self m id e = rw (adjacent-write, str_eq_refl) (in_add_id_self id _)

-- An edge of the graph after a write: the one written, or an old one.
pub get_edge-write :
    (m : MemGraph) (e e' : Edge) (id : Str)
    → get_edge (write_edge m e.id e).1 id ≡ some e'
    → ((e.id ≡ id) × (e ≡ e')) ⊎ (get_edge m id ≡ some e')
unfolding write_edge get_edge
get_edge-write m e e' id k = ground (arith, lookup-insert e.id id e m.edges, str_eq_iff e.id id)

module _ (go : Platform) where
  -- Nodes and edges stand under their ids, an edge's id is made from what it joins, and each edge
  -- is in the set of the node that it leaves.
  pub record IsIndexed (m : MemGraph) : Type 0 where
    pub nodes : IsKeyed m
    pub ids :
        (id : Str) (e : Edge)
        → get_edge m id ≡ some e
        → (e.id ≡ id) × (id ≡ edge_id go e.from e.rel e.to)
    pub listed : (id : Str) (e : Edge) → get_edge m id ≡ some e → Memᴰ id (adjacent m e.from)

  write_edge-IsIndexed :
      (m : MemGraph) (e : Edge)
      → e.id ≡ edge_id go e.from e.rel e.to
      → IsIndexed m
      → IsIndexed (write_edge m e.id e).1
  write_edge-IsIndexed m e i h = record {
    nodes = unfold write_edge in unfold get_node in h.nodes;
    ids = λ id e' k. elim (get_edge-write m e e' id k) [
      | inl (same, is) ↦ (rw (← is) same, rw (← is) (sym same ∙ i))
      | inr old ↦ h.ids id e' old
    ];
    listed = λ id e' k. elim (get_edge-write m e e' id k) [
      | inl (same, is) ↦ rw (← is, ← same) (in_adjacent_self m e.id e)
      | inr old ↦ in_adjacent m e.id e'.from id e (h.listed id e' old)
    ];
  }

  commit_edge-IsIndexed :
      (m : MemGraph) (e : Edge) (trust : Trust)
      → e.id ≡ edge_id go e.from e.rel e.to
      → IsIndexed m
      → IsIndexed (merge_edge m e.id (decide_edge trust e)).1
  commit_edge-IsIndexed m e trust i h =
      merge_edge-rule m e trust IsIndexed h (write_edge-IsIndexed m e i h)

  merge_node-IsIndexed :
      (m : MemGraph) (f : Node) (trust : Trust) (only : Bool)
      → IsIndexed m
      → IsIndexed (merge_node m f.id (decide_node trust only f)).1
  unfolding get_edge adjacent
  merge_node-IsIndexed m f trust only h =
      merge_node-rule m f trust only (λ g. IsKeyed g → IsIndexed g) (λ k. h)
        (λ k. record { nodes = k; ids = h.ids; listed = h.listed })
        (merge_node-IsKeyed m f trust only h.nodes)

  replay-IsIndexed :
      (ws : List GraphWrite) (m : MemGraph) → IsIndexed m → IsIndexed (replay_graph go m ws)
  unfolding replay_graph
  replay-IsIndexed [] m h = h
  replay-IsIndexed (w ∷ ws) m h = replay-IsIndexed ws (apply_write go m w) (
      apply_write-keeps go IsIndexed w (λ g f only t. merge_node-IsIndexed g f (trust_of w) only)
        (λ g e t i. commit_edge-IsIndexed g e (trust_of w) i) m h)

  empty-IsIndexed : (max : ℕ) → IsIndexed (new_mem_graph_with_cap max)
  unfolding new_mem_graph_with_cap get_node get_edge lookup
  empty-IsIndexed max = record { nodes = λ id n e. cc; ids = λ id e k. cc; listed = λ id e k. cc }

  -- In a graph that any writes made from an empty one, whatever they were and whichever of them were refused, an edge has the id that is made from
  -- what it joins, and the walk's read of the node that it leaves returns it: no relation is out of reach.
  pub edge_in_out_edges :
      (max : ℕ) (ws : List GraphWrite) (id : Str) (e : Edge)
      → get_edge (replay_graph go (new_mem_graph_with_cap max) ws) id ≡ some e
      → (e.id ≡ id)
        × (id ≡ edge_id go e.from e.rel e.to)
        × Memᴰ e (out_edges (replay_graph go (new_mem_graph_with_cap max) ws) e.from)
  unfolding out_edges
  edge_in_out_edges max ws id e k =
      let h = replay-IsIndexed ws _ (empty-IsIndexed max) in
      (
        (h.ids id e k).0,
        (h.ids id e k).1,
        in_edges_of (replay_graph go (new_mem_graph_with_cap max) ws) id e _ k (h.listed id e k),
      )
