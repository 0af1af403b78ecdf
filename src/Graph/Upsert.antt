-- ===== src/Graph/Upsert.antt =====
-- Writing a node of the graph twice.
use aicti.Base.{
  first-append, length-append, suc, ◌+◌, ◌++◌, Result, ℕ, String, eq_refl, ◌≡◌, refl, sym, ap, ◌∙◌,
  inl, inr, Bool, true, Option, none, some, Option-cases, Bool-cases, List, [], ◌∷◌, first, length,
  arith, ok, and_intro,
}
use aicti.Value.{Fields}
use aicti.Db.{Db, GraphNode}
use aicti.Graph.{same_node, set_payload, upsert_node, flush}

length-set_payload :
    (p : GraphNode → Bool) (payload : Fields) (ns : List GraphNode)
    → length (set_payload p payload ns) ≡ length ns
unfolding set_payload
length-set_payload p payload [] = refl
length-set_payload p payload (n ∷ ns) = ground (arith, length-set_payload p payload ns)

some_payload :
    (payload : Fields) (n row : GraphNode)
    → some n ≡ some row
    → some (record n { payload = payload }) ≡ some (record row { payload = payload })
some_payload payload n row h = ap with_payload h
  where
    with_payload : Option GraphNode → Option GraphNode
    with_payload none = none
    with_payload (some r) = some (record r { payload = payload })

first-set_payload :
    (p : GraphNode → Bool) (payload : Fields)
    → ((n : GraphNode) → p (record n { payload = payload }) ≡ p n)
    → (ns : List GraphNode) (row : GraphNode) → first p ns ≡ some row
    → first p (set_payload p payload ns) ≡ some (record row { payload = payload })
unfolding set_payload
first-set_payload p payload stable [] row h = cc
first-set_payload p payload stable (n ∷ ns) row h = elim (Bool-cases (p n)) [
  | inl here ↦ rw (here, set_payload, stable n ∙ here) (some_payload payload n row (rw (here) at h))
  | inr later ↦
      rw (later, set_payload, later) (first-set_payload p payload stable ns row (rw (later) at h))
]

two_more : (n : ℕ) → n + 1 + 1 ≡ n + 2
two_more n = omega arith

no_more : (n : ℕ) → n ≡ n + 0
no_more n = omega arith

first-later :
    (p : GraphNode → Bool) (xs ys : List GraphNode)
    → first p xs ≡ none
    → first p (xs ++ ys) ≡ first p ys
first-later p [] ys h = refl
first-later p (x ∷ xs) ys h = ground (arith, first-later p xs ys)

first-earlier :
    (p : GraphNode → Bool) (xs ys : List GraphNode) (row : GraphNode)
    → first p xs ≡ some row
    → first p (xs ++ ys) ≡ some row
first-earlier p [] ys row h = cc
first-earlier p (x ∷ xs) ys row h = ground (arith, first-earlier p xs ys row)

-- What a second write with no flush between returns, and how many rows the two add, where the table has
-- the node or not.
abbrev pub second_id : (ℕ → String) → Option GraphNode → ℕ → String
second_id uuid4 none draws = uuid4 (suc draws)
second_id uuid4 (some row) draws = row.id

abbrev pub rows_added : Option GraphNode → ℕ
rows_added none = 2
rows_added (some row) = 0

module _ (run_id node_type ref_table ref_id : String) where
  same_node_self :
      (n : GraphNode)
      → n.run_id ≡ run_id
      → n.node_type ≡ node_type
      → n.ref_table ≡ ref_table
      → n.ref_id ≡ ref_id
      → same_node run_id node_type ref_table ref_id n ≡ true
  unfolding same_node
  same_node_self n a b c d =
      rw (a, b, c, d)
        (and_intro (eq_refl run_id)
          (and_intro (eq_refl node_type) (and_intro (eq_refl ref_table) (eq_refl ref_id))))

  same_node-payload :
      (payload : Fields) (n : GraphNode)
      → same_node run_id node_type ref_table ref_id (record n { payload = payload })
        ≡ same_node run_id node_type ref_table ref_id n
  unfolding same_node
  same_node-payload payload n = refl

  abbrev fresh_node : String → Fields → GraphNode
  fresh_node id payload = record {
    id = id;
    run_id = run_id;
    node_type = node_type;
    ref_table = ref_table;
    ref_id = ref_id;
    payload = payload;
  }

  module _ (uuid4 : ℕ → String) (E : Type 0) where
    upsert_known :
        (payload : Fields) (db : Db) (row : GraphNode)
        → first (same_node run_id node_type ref_table ref_id) db.graph_nodes ≡ some row
        → upsert_node uuid4 {E = E} run_id node_type ref_table ref_id payload db ≡ (
          ok row.id,
          record db {
            graph_nodes =
                set_payload (same_node run_id node_type ref_table ref_id) payload db.graph_nodes;
          },
        )
    unfolding upsert_node
    upsert_known payload db row e = rw (e, upsert_node) refl

    abbrev is_same : GraphNode → Bool
    is_same = same_node run_id node_type ref_table ref_id

    abbrev upserted : Fields → Db → Result E String × Db
    upserted payload db = upsert_node uuid4 {E = E} run_id node_type ref_table ref_id payload db

    upsert_new :
        (payload : Fields) (db : Db)
        → first is_same db.graph_nodes ≡ none
        → upserted payload db ≡ (
          ok (uuid4 db.draws),
          record db {
            added_nodes = db.added_nodes ++ fresh_node (uuid4 db.draws) payload ∷ [];
            draws = suc db.draws;
          },
        )
    unfolding upsert_node
    upsert_new payload db e = rw (e, upsert_node) refl

    -- What a flush leaves to be found.
    flush_leaves :
        (payload : Fields) (db : Db)
        → first is_same db.added_nodes ≡ none
        → (row : GraphNode) × (first is_same (flush (upserted payload db).1).graph_nodes ≡ some row)
          × ((upserted payload db).0 ≡ ok row.id)
    unfolding flush
    flush_leaves payload db pending = elim (Option-cases (first is_same db.graph_nodes)) [
      | inl e ↦
          let new = fresh_node (uuid4 db.draws) payload in
          let run = upsert_new payload db e in
          (
            new,
            ap (λ o. first is_same (o.1.graph_nodes ++ o.1.added_nodes)) run
                ∙ first-later is_same db.graph_nodes (db.added_nodes ++ new ∷ []) e
                ∙ first-append is_same db.added_nodes new pending
                    (same_node_self new refl refl refl refl),
            ap (λ o. o.0) run,
          )
      | inr (row, e) ↦
          let run = upsert_known payload db row e in
          (
            record row { payload = payload },
            ap (λ o. first is_same (o.1.graph_nodes ++ o.1.added_nodes)) run
                ∙ first-earlier is_same (set_payload is_same payload db.graph_nodes) db.added_nodes
                    _
                    (first-set_payload is_same payload (same_node-payload payload) db.graph_nodes
                      row e),
            ap (λ o. o.0) run,
          )
    ]

    unflushed :
        (payload payload' : Fields) (db : Db)
        → let (r'', db'') = upserted payload' (upserted payload db).1 in
          (r'' ≡ ok (second_id uuid4 (first is_same db.graph_nodes) db.draws))
          × (length db''.added_nodes
              ≡ length db.added_nodes + rows_added (first is_same db.graph_nodes))
    unflushed payload payload' db = elim (Option-cases (first is_same db.graph_nodes)) [
      | inl e ↦
          let once = upsert_new payload db e in
          let twice = ap (λ o. upserted payload' o.1) once ∙ upsert_new payload' _ e in
          (
            ap (λ o. o.0) twice ∙ ap (λ f. ok (second_id uuid4 f db.draws)) (sym e),
            ap (λ o. length o.1.added_nodes) twice
                ∙ length-append (db.added_nodes ++ _ ∷ []) (_ ∷ [])
                ∙ ap (λ l. l + 1) (length-append db.added_nodes (_ ∷ []))
                ∙ two_more (length db.added_nodes)
                ∙ ap (λ f. length db.added_nodes + rows_added f) (sym e),
          )
      | inr (row, e) ↦
          let once = upsert_known payload db row e in
          let found =
            first-set_payload is_same payload (same_node-payload payload) db.graph_nodes row e in
          let twice = ap (λ o. upserted payload' o.1) once ∙ upsert_known payload' _ _ found in
          (
            ap (λ o. o.0) twice ∙ ap (λ f. ok (second_id uuid4 f db.draws)) (sym e),
            ap (λ o. length o.1.added_nodes) twice
                ∙ no_more (length db.added_nodes)
                ∙ ap (λ f. length db.added_nodes + rows_added f) (sym e),
          )
    ]

    -- Where no node of the run, type, table and reference waits to be flushed, and whatever the payloads
    -- are: a second `upsert_node` of them after a flush returns the identifier that the first returned,
    -- draws none, leaves the number of stored nodes as it is and leaves none waiting. With no flush
    -- between them, the second returns the identifier of the stored node and no node waits that did
    -- not before; if none is stored, it returns the identifier drawn after that of the first, and two
    -- nodes more wait.
    pub upsert_node-flush :
        (payload payload' : Fields) (db : Db)
        → first is_same db.added_nodes ≡ none
        → (let (r, db') = upserted payload db in
            let (r', db'') = upserted payload' (flush db') in
            (r' ≡ r)
            × (db''.draws ≡ db'.draws)
            × (length db''.graph_nodes ≡ length (flush db').graph_nodes)
            × (db''.added_nodes ≡ []))
          × (let (r', db'') = upserted payload' (upserted payload db).1 in
              (r' ≡ ok (second_id uuid4 (first is_same db.graph_nodes) db.draws))
              × (length db''.added_nodes
                  ≡ length db.added_nodes + rows_added (first is_same db.graph_nodes)))
    unfolding flush
    upsert_node-flush payload payload' db pending =
        let (row, found, same_id) = flush_leaves payload db pending in
        let again = upsert_known payload' (flush (upserted payload db).1) row found in
        (
          (
            ap (λ o. o.0) again ∙ sym same_id,
            ap (λ o. o.1.draws) again,
            ap (λ o. length o.1.graph_nodes) again ∙ length-set_payload is_same payload' _,
            ap (λ o. o.1.added_nodes) again,
          ),
          unflushed payload payload' db,
        )
