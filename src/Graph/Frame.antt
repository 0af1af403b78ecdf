-- ===== src/Graph/Frame.antt =====
-- What the two writing operations of the graph leave alone.
use aicti.Base.{ℕ, suc, String, List, [], ◌++◌, ok, ◌≡◌, first, Option-cases, inl, inr}
use aicti.Value.{Fields}
use aicti.Db.{Db, GraphNode, GraphEdge}
use aicti.Db.Action.{Action, ◌>>=◌, modify}
use aicti.Db.Keeps.{Keeps}
use aicti.Graph.{same_node, same_edge, upsert_node, add_edge, flush}

-- A property of the database that the graph and the count of drawn identifiers play no part in.
pub record IgnoresGraph (P : Db → Type 0) : Type 0 where
  pub nodes : (db : Db) (ns : List GraphNode) → P db → P (record db { graph_nodes = ns })
  pub edges : (db : Db) (es : List GraphEdge) → P db → P (record db { graph_edges = es })
  pub added :
      (db : Db) (ns : List GraphNode) (es : List GraphEdge)
      → P db
      → P (record db { added_nodes = ns; added_edges = es })
  pub draws : (db : Db) (n : ℕ) → P db → P (record db { draws = n })

module _ {E : Type 0} {P : Db → Type 0} (g : IgnoresGraph P) (uuid4 : ℕ → String) where
  pub Keeps-upsert_node :
      (run_id node_type ref_table ref_id : String) (payload : Fields)
      → Keeps P (upsert_node uuid4 {E = E} run_id node_type ref_table ref_id payload)
  unfolding upsert_node
  Keeps-upsert_node run_id node_type ref_table ref_id payload = record {
    at = λ db h.
        elim (Option-cases (first (same_node run_id node_type ref_table ref_id) db.graph_nodes)) [
          | inl e ↦
              rw (e, upsert_node)
                (g.draws (record db { added_nodes = _ }) (suc db.draws)
                  (g.added db _ db.added_edges h))
          | inr (row, e) ↦ rw (e, upsert_node) (g.nodes db _ h)
        ];
  }

  pub Keeps-add_edge :
      (run_id source target edge_type : String)
      → Keeps P (add_edge uuid4 {E = E} run_id source target edge_type)
  unfolding add_edge
  Keeps-add_edge run_id source target edge_type = record {
    at = λ db h.
        elim (Option-cases (first (same_edge run_id source target edge_type) db.graph_edges)) [
          | inl e ↦
              rw (e, add_edge)
                (g.draws (record db { added_edges = _ }) (suc db.draws)
                  (g.added db db.added_nodes _ h))
          | inr (row, e) ↦ rw (e, add_edge) h
        ];
  }

module _ {E : Type 0} {P : Db → Type 0} (g : IgnoresGraph P) where
  pub Keeps-flush : Keeps P (modify {E = E} flush)
  unfolding flush
  Keeps-flush = record {
    at = λ db h.
        g.added (record db { graph_nodes = _; graph_edges = _ }) [] []
          (g.edges (record db { graph_nodes = _ }) (db.graph_edges ++ db.added_edges)
            (g.nodes db (db.graph_nodes ++ db.added_nodes) h));
  }

-- An action that never raises.
abbrev pub Completes : {E A : Type 0} → Action E A → Type 0
Completes {A = A} m = (db : Db) → (a : A) × ((m db).0 ≡ ok a)

pub Completes-bind :
    {E A B : Type 0} (m : Action E A) (f : A → Action E B)
    → Completes m
    → ((a : A) → Completes (f a))
    → Completes (m >>= f)
Completes-bind m f c d db = let (a, e) = c db in rw (e) (d a (m db).1)

-- Neither operation raises.
module _ {E : Type 0} (uuid4 : ℕ → String) where
  pub upsert_node_ok :
      (run_id node_type ref_table ref_id : String) (payload : Fields) (db : Db)
      → (id : String) × ((upsert_node uuid4 {E = E} run_id node_type ref_table ref_id payload db).0
          ≡ ok id)
  unfolding upsert_node
  upsert_node_ok run_id node_type ref_table ref_id payload db =
      elim (Option-cases (first (same_node run_id node_type ref_table ref_id) db.graph_nodes)) [
        | inl e ↦ (uuid4 db.draws, rw (e, upsert_node))
        | inr (row, e) ↦ (row.id, rw (e, upsert_node))
      ]

  pub add_edge_ok :
      (run_id source target edge_type : String) (db : Db)
      → (id : String) × ((add_edge uuid4 {E = E} run_id source target edge_type db).0 ≡ ok id)
  unfolding add_edge
  add_edge_ok run_id source target edge_type db =
      elim (Option-cases (first (same_edge run_id source target edge_type) db.graph_edges)) [
        | inl e ↦ (uuid4 db.draws, rw (e, add_edge))
        | inr (row, e) ↦ (row.id, rw (e, add_edge))
      ]
