-- ===== src/Graph/Arcs.antt =====
-- What the dictionaries of `assert_export_path_complete` hold, read off the edges.
use mathlib.Core.List.{Memᴰ}
use aicti.Base.{
  String, eq_iff, ◌≡◌, sym, ap, ◌∙◌, some, List, arith, filter_map-mem, mem-filter_map,
}
use aicti.Db.{GraphNode, GraphEdge}
use aicti.Graph.{node_by_id, Arc, arc, arc_from, adjacency, leads, target_if, targets}

-- An edge of the given type leads from the node with this id to a node of the given type, and both
-- ends are nodes of the run.
pub record Hop (nodes : List GraphNode) (edges : List GraphEdge) (edge_type node_type id : String)
    (n : GraphNode) : Type 0 where
  pub edge : GraphEdge
  pub listed : Memᴰ edge edges
  pub from : edge.source_node_id ≡ id
  pub source : GraphNode
  pub known : node_by_id edge.source_node_id nodes ≡ some source
  pub to : node_by_id edge.target_node_id nodes ≡ some n
  pub typed : edge.edge_type ≡ edge_type
  pub kind : n.node_type ≡ node_type

module _ (nodes : List GraphNode) (edges : List GraphEdge) (edge_type node_type id : String) where
  arc_parts :
      (e : GraphEdge) (a : Arc)
      → arc_from nodes id e ≡ some a
      → (e.source_node_id ≡ id)
        × ((m : GraphNode) × (node_by_id e.source_node_id nodes ≡ some m))
        × (node_by_id e.target_node_id nodes ≡ some a.target)
        × (e.edge_type ≡ a.edge_type)
  unfolding arc_from arc
  arc_parts e a h = ground (arith, eq_iff e.source_node_id id)

  target_parts :
      (a : Arc) (n : GraphNode)
      → target_if edge_type node_type a ≡ some n
      → (a.target ≡ n) × (a.edge_type ≡ edge_type) × (a.target.node_type ≡ node_type)
  unfolding target_if leads
  target_parts a n h =
      ground (arith, eq_iff a.edge_type edge_type, eq_iff a.target.node_type node_type)

  arc_of_parts :
      (e : GraphEdge) (m n : GraphNode)
      → e.source_node_id ≡ id
      → node_by_id e.source_node_id nodes ≡ some m
      → node_by_id e.target_node_id nodes ≡ some n
      → arc_from nodes id e ≡ some (record { edge_type = e.edge_type; target = n })
  unfolding arc_from arc
  arc_of_parts e m n h known to = ground (arith, eq_iff e.source_node_id id)

  target_of_parts :
      (t : String) (n : GraphNode)
      → t ≡ edge_type
      → n.node_type ≡ node_type
      → target_if edge_type node_type (record { edge_type = t; target = n }) ≡ some n
  unfolding target_if leads
  target_of_parts t n p q = ground (arith, eq_iff t edge_type, eq_iff n.node_type node_type)

  pub Hop-of_mem :
      (n : GraphNode)
      → Memᴰ n (targets edge_type node_type (adjacency nodes edges id))
      → Hop nodes edges edge_type node_type id n
  unfolding targets adjacency
  Hop-of_mem n m =
      let (a, among, taken) =
        filter_map-mem (target_if edge_type node_type) (adjacency nodes edges id) n m in
      let (e, listed, made) = filter_map-mem (arc_from nodes id) edges a among in
      let (from, (source, known), to, typed) = arc_parts e a made in
      let (same, right_type, right_kind) = target_parts a n taken in
      record {
        edge = e;
        listed = listed;
        from = from;
        source = source;
        known = known;
        to = to ∙ ap some same;
        typed = typed ∙ right_type;
        kind = ap (λ (x : GraphNode). x.node_type) (sym same) ∙ right_kind;
      }

  pub mem-of_Hop :
      (n : GraphNode)
      → Hop nodes edges edge_type node_type id n
      → Memᴰ n (targets edge_type node_type (adjacency nodes edges id))
  unfolding targets adjacency
  mem-of_Hop n h =
      mem-filter_map (target_if edge_type node_type) (adjacency nodes edges id)
        (mem-filter_map (arc_from nodes id) edges h.listed
          (arc_of_parts h.edge h.source n h.from h.known h.to))
        (target_of_parts h.edge.edge_type n h.typed h.kind)
