-- ===== src/Graph/Upstream.antt =====
-- `_has_required_upstream_path` always answers, and answers whether there is a path.
use mathlib.Core.List.{Memᴰ}
use mathlib.Core.List.Memᴰ
use aicti.Base.{
  ℕ, zero, suc, ◌+◌, ◌*◌, ◌≤◌, ◌<◌, String, ◌==◌, eq_iff, ◌≡◌, refl, sym, ap, ◌∙◌, inl, inr, ◌↔◌,
  Bool, true, false, some, List, [], ◌∷◌, keep, length, length-filter_map, keep-mem, mem-keep,
  arith,
}
use aicti.Search.Correct.{search_correct}
use aicti.Search.Total.{total, search_total}
use aicti.Db.{GraphNode, GraphEdge}
use aicti.Graph.{
  adjacency, arc_from, target_if, targets, State, same_state, states, expand, is_rule, fuel,
  from_report, from_reports, has_required_upstream_path,
}
use aicti.Graph.Path.{UpstreamPath, same_state_iff, path_of_walk, Walk-of_path}

module _ (nodes : List GraphNode) (edges : List GraphEdge) where
  abbrev weight_of : ℕ → ℕ
  weight_of zero = let k = length edges in 1 + k * (1 + k * (1 + k * 1))
  weight_of (suc zero) = let k = length edges in 1 + k * (1 + k * 1)
  weight_of (suc (suc zero)) = 1 + length edges * 1
  weight_of (suc (suc (suc h))) = 1

  abbrev weight : State → ℕ
  weight s = weight_of s.hop

  total-states :
      (h : ℕ) (ns : List GraphNode)
      → total same_state weight (states h ns) ≡ length ns * weight_of h
  unfolding states
  total-states h [] = grind arith
  total-states h (n ∷ ns) = grind (arith, total-states h ns)

  few_targets :
      (edge_type node_type id : String)
      → length (targets edge_type node_type (adjacency nodes edges id)) ≤ length edges
  unfolding targets adjacency
  few_targets edge_type node_type id = omega (
    arith,
    length-filter_map (target_if edge_type node_type) (adjacency nodes edges id),
    length-filter_map (arc_from nodes id) edges,
  )

  light_states :
      (edge_type node_type id : String) (h : ℕ)
      → total same_state weight (states h (targets edge_type node_type (adjacency nodes edges id)))
        ≤ length edges * weight_of h
  light_states edge_type node_type id h = grind (
    arith,
    total-states h (targets edge_type node_type (adjacency nodes edges id)),
    few_targets edge_type node_type id,
  )

  lighter :
      (id : String) (h : ℕ)
      → total same_state weight (expand nodes edges (record { node_id = id; hop = h }))
        < weight_of h
  unfolding expand
  lighter id zero = omega (arith, light_states "derived_from" "evidence_quote" id 1)
  lighter id (suc zero) = omega (arith, light_states "supports" "detection_spec" id 2)
  lighter id (suc (suc zero)) = omega (arith, light_states "derived_from" "generated_rule" id 3)
  lighter id (suc (suc (suc h))) = omega arith

  from_report_total :
      (rule_node_id : String) (n : GraphNode)
      → (b : Bool) × (from_report nodes edges rule_node_id n ≡ some b)
  unfolding from_report
  from_report_total rule_node_id n =
      search_total same_state (is_rule nodes edges rule_node_id) (expand nodes edges) weight
        (λ s. lighter s.node_id s.hop) (fuel nodes edges) (record { node_id = n.id; hop = 0 })
        (omega arith)

  from_reports_total :
      (rule_node_id : String) (ns : List GraphNode)
      → (b : Bool) × (from_reports nodes edges rule_node_id ns ≡ some b)
  unfolding from_reports
  from_reports_total rule_node_id [] = (false, refl)
  from_reports_total rule_node_id (n ∷ ns) =
      after (from_report_total rule_node_id n) (from_reports_total rule_node_id ns)
    where
      after :
          ((b : Bool) × (from_report nodes edges rule_node_id n ≡ some b))
          → ((b : Bool) × (from_reports nodes edges rule_node_id ns ≡ some b))
          → (b : Bool) × (from_reports nodes edges rule_node_id (n ∷ ns) ≡ some b)
      after (true, e) rest = (true, rw (e, from_reports))
      after (false, e) (b, f) = (b, rw (e, from_reports) f)

  from_reports_sound :
      (rule_node_id : String) (ns : List GraphNode)
      → from_reports nodes edges rule_node_id ns ≡ some true
      → (n : GraphNode) × Memᴰ n ns × (from_report nodes edges rule_node_id n ≡ some true)
  unfolding from_reports
  from_reports_sound rule_node_id [] h = cc
  from_reports_sound rule_node_id (n ∷ ns) h =
      after (from_report_total rule_node_id n) (from_reports_sound rule_node_id ns)
    where
      after :
          ((b : Bool) × (from_report nodes edges rule_node_id n ≡ some b))
          → (from_reports nodes edges rule_node_id ns ≡ some true
              → (m : GraphNode) × Memᴰ m ns × (from_report nodes edges rule_node_id m ≡ some true))
          → (m : GraphNode) × Memᴰ m (n ∷ ns) × (from_report nodes edges rule_node_id m ≡ some true)
      after (true, e) rest = (n, Memᴰ.head refl, e)
      after (false, e) rest =
          let (m, among, f) = rest (rw (e, from_reports) at h) in (m, Memᴰ.tail among, f)

  from_reports_found :
      (rule_node_id : String) (ns : List GraphNode) {n : GraphNode}
      → Memᴰ n ns
      → from_report nodes edges rule_node_id n ≡ some true
      → from_reports nodes edges rule_node_id ns ≡ some true
  unfolding from_reports
  from_reports_found rule_node_id [] m e = elim m [ ]
  from_reports_found rule_node_id (x ∷ xs) m e = elim (Memᴰ.cases_cons m) [
    | inl same ↦ rw (sym (ap (from_report nodes edges rule_node_id) same) ∙ e, from_reports)
    | inr later ↦
        ground (arith, from_report_total rule_node_id x, from_reports_found rule_node_id xs later e)
  ]

  upstream_sound :
      (rule_node_id : String)
      → has_required_upstream_path nodes edges rule_node_id ≡ some true
      → UpstreamPath nodes edges rule_node_id
  unfolding has_required_upstream_path
  upstream_sound rule_node_id h =
      let reports = keep (λ (x : GraphNode). x.node_type == "report") nodes in
      let (n, among, found) = from_reports_sound rule_node_id reports h in
      let (listed, kind) = keep-mem (λ (x : GraphNode). x.node_type == "report") nodes n among in
      let start : State = record { node_id = n.id; hop = 0 } in
      let (u, w, goal) =
        (search_correct same_state same_state_iff (is_rule nodes edges rule_node_id)
            (expand nodes edges) start (fuel nodes edges)).0
          (unfold from_report in found) in
      path_of_walk nodes edges n rule_node_id u listed ((eq_iff n.node_type "report").0 kind) w goal

  upstream_found :
      (rule_node_id : String)
      → UpstreamPath nodes edges rule_node_id
      → has_required_upstream_path nodes edges rule_node_id ≡ some true
  unfolding has_required_upstream_path from_report is_rule
  upstream_found rule_node_id p =
      from_reports_found rule_node_id (keep (λ (x : GraphNode). x.node_type == "report") nodes)
        (mem-keep (λ (x : GraphNode). x.node_type == "report") nodes p.listed
          ((eq_iff p.report.node_type "report").1 p.is_report))
        (found (from_report_total rule_node_id p.report))
    where
      start : State
      start = record { node_id = p.report.id; hop = 0 }

      end : State
      end = record { node_id = p.rule.id; hop = 3 }

      at_end : is_rule nodes edges rule_node_id end ≡ true
      at_end = (eq_iff p.rule.id rule_node_id).1 p.ends

      found :
          ((b : Bool) × (from_report nodes edges rule_node_id p.report ≡ some b))
          → from_report nodes edges rule_node_id p.report ≡ some true
      found (true, e) = e
      found (false, e) =
          let missed =
            (search_correct same_state same_state_iff (is_rule nodes edges rule_node_id)
                (expand nodes edges) start (fuel nodes edges)).1
              e end (Walk-of_path nodes edges rule_node_id p) in
          cc (missed, at_end)

  -- The search never runs out of fuel, and its answer is `true` exactly when there is a path
  -- report, quote, specification, rule whose three edges are of the required types, lie between
  -- nodes of the run, and whose last node is the rule's.
  pub has_required_upstream_path_iff :
      (rule_node_id : String)
      → ((b : Bool) × (has_required_upstream_path nodes edges rule_node_id ≡ some b))
        × ((has_required_upstream_path nodes edges rule_node_id ≡ some true)
            ↔ UpstreamPath nodes edges rule_node_id)
  unfolding has_required_upstream_path
  has_required_upstream_path_iff rule_node_id = (
    from_reports_total rule_node_id (keep (λ (x : GraphNode). x.node_type == "report") nodes),
    (upstream_sound rule_node_id, upstream_found rule_node_id),
  )
