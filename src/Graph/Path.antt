-- ===== src/Graph/Path.antt =====
-- The upstream search of `_has_required_upstream_path` against the path that it looks for.
use mathlib.Core.List.{Memᴰ}
use mathlib.Core.List.Memᴰ
use aicti.Base.{
  ℕ, zero, suc, ◌=?◌, =?_iff, ◌<◌, String, ◌==◌, eq_iff, ◌≡◌, refl, sym, ap, subst, ◌∙◌, inl, inr,
  ◌↔◌, true, List, [], ◌∷◌, elem, arith, and_true, or_true,
}
use aicti.Search.Correct.{Walk}
use aicti.Db.{GraphNode, GraphEdge}
use aicti.Graph.{adjacency, targets, State, same_state, states, expand, is_rule}
use aicti.Graph.Arcs.{Hop, Hop-of_mem, mem-of_Hop}

-- A report, a quote, a specification and the rule, each a hop from the one before.
pub record UpstreamPath (nodes : List GraphNode) (edges : List GraphEdge) (rule_node_id : String)
    : Type 0 where
  pub report : GraphNode
  pub quote : GraphNode
  pub spec : GraphNode
  pub rule : GraphNode
  pub listed : Memᴰ report nodes
  pub is_report : report.node_type ≡ "report"
  pub quoted : Hop nodes edges "derived_from" "evidence_quote" report.id quote
  pub supported : Hop nodes edges "supports" "detection_spec" quote.id spec
  pub derived : Hop nodes edges "derived_from" "generated_rule" spec.id rule
  pub ends : rule.id ≡ rule_node_id

pub same_state_iff : (a b : State) → (same_state a b ≡ true) ↔ (a ≡ b)
unfolding same_state
same_state_iff a b = ground (arith, eq_iff a.node_id b.node_id)

states-elem :
    (hop : ℕ) (ns : List GraphNode) (u : State)
    → elem same_state u (states hop ns) ≡ true
    → (n : GraphNode) × Memᴰ n ns × (u ≡ record { node_id = n.id; hop = hop })
unfolding states
states-elem hop [] u h = cc
states-elem hop (n ∷ ns) u h =
    let s : State = record { node_id = n.id; hop = hop } in
    elim (or_true (same_state u s) (elem same_state u (states hop ns)) h) [
      | inl same ↦ (n, Memᴰ.head refl, (same_state_iff u s).0 same)
      | inr later ↦ let (m, among, e) = states-elem hop ns u later in (m, Memᴰ.tail among, e)
    ]

elem-states :
    (hop : ℕ) (ns : List GraphNode) (n : GraphNode)
    → Memᴰ n ns
    → elem same_state (record { node_id = n.id; hop = hop }) (states hop ns) ≡ true
unfolding states
elem-states hop [] n m = elim m [ ]
elem-states hop (x ∷ xs) n m =
    let s : State = record { node_id = n.id; hop = hop } in
    let t : State = record { node_id = x.id; hop = hop } in
    elim (Memᴰ.cases_cons m) [
      | inl e ↦ ground (
        arith,
        (same_state_iff s t).1 (ap (λ (y : GraphNode). record { node_id = y.id; hop = hop }) e),
      )
      | inr later ↦ ground (arith, elem-states hop xs n later)
    ]

-- The two texts of a required hop.
abbrev edge_of : ℕ → String
edge_of zero = "derived_from"
edge_of (suc zero) = "supports"
edge_of (suc (suc h)) = "derived_from"

abbrev kind_of : ℕ → String
kind_of zero = "evidence_quote"
kind_of (suc zero) = "detection_spec"
kind_of (suc (suc h)) = "generated_rule"

module _ (nodes : List GraphNode) (edges : List GraphEdge) where
  -- What a step of the search comes from.
  record Step (id : String) (h : ℕ) (u : State) : Type 0 where
    early : h < 3
    node : GraphNode
    hop : Hop nodes edges (edge_of h) (kind_of h) id node
    lands : u ≡ record { node_id = node.id; hop = suc h }

  by_hop :
      (edge_type node_type id : String) (h : ℕ) (u : State)
      → elem same_state u (states (suc h) (targets edge_type node_type (adjacency nodes edges id)))
        ≡ true
      → (n : GraphNode) × Hop nodes edges edge_type node_type id n
        × (u ≡ record { node_id = n.id; hop = suc h })
  by_hop edge_type node_type id h u e =
      let (n, among, same) =
        states-elem (suc h) (targets edge_type node_type (adjacency nodes edges id)) u e in
      (n, Hop-of_mem nodes edges edge_type node_type id n among, same)

  Step-of :
      (id : String) (h : ℕ) (u : State)
      → elem same_state u (expand nodes edges (record { node_id = id; hop = h })) ≡ true
      → Step id h u
  unfolding expand
  Step-of id zero u e =
      let (n, x, same) = by_hop "derived_from" "evidence_quote" id 0 u e in
      record { early = omega arith; node = n; hop = x; lands = same }
  Step-of id (suc zero) u e =
      let (n, x, same) = by_hop "supports" "detection_spec" id 1 u e in
      record { early = omega arith; node = n; hop = x; lands = same }
  Step-of id (suc (suc zero)) u e =
      let (n, x, same) = by_hop "derived_from" "generated_rule" id 2 u e in
      record { early = omega arith; node = n; hop = x; lands = same }
  Step-of id (suc (suc (suc h))) u e = cc

  module _ (start : GraphNode) where
    abbrev pub origin : State
    origin = record { node_id = start.id; hop = 0 }

    abbrev pub Reached : State → Type 0
    Reached = Walk same_state (expand nodes edges) origin

    Reached-start : (u : State) → Reached u → u.hop ≡ 0 → u ≡ origin
    Reached-start u Walk.stop e = refl
    Reached-start u (Walk.go {t = t} w x) e =
        let s = Step-of t.node_id t.hop u x in
        absurd (omega (arith, e, ap (λ (y : State). y.hop) s.lands))

    -- A state beyond the start comes from one that is a hop nearer.
    Reached-later :
        (u : State) (h : ℕ)
        → Reached u
        → u.hop ≡ suc h
        → (t : State) × Reached t × (t.hop ≡ h) × Step t.node_id h u
    Reached-later u h Walk.stop e = absurd (omega (arith, e))
    Reached-later u h (Walk.go {t = t} w x) e =
        let s = Step-of t.node_id t.hop u x in
        let same : t.hop ≡ h = omega (arith, e, ap (λ (y : State). y.hop) s.lands) in
        (t, w, same, subst (λ k. Step t.node_id k u) same s)

    pub path_of_walk :
        (rule_node_id : String) (u : State)
        → Memᴰ start nodes
        → start.node_type ≡ "report"
        → Reached u
        → is_rule nodes edges rule_node_id u ≡ true
        → UpstreamPath nodes edges rule_node_id
    unfolding is_rule
    path_of_walk rule_node_id u listed kind w goal =
        let (three, is_it) = and_true (u.hop =? 3) (u.node_id == rule_node_id) goal in
        let (t₂, w₂, e₂, s₃) = Reached-later u 2 w ((=?_iff u.hop 3).0 three) in
        let (t₁, w₁, e₁, s₂) = Reached-later t₂ 1 w₂ e₂ in
        let (t₀, w₀, e₀, s₁) = Reached-later t₁ 0 w₁ e₁ in
        record {
          report = start;
          quote = s₁.node;
          spec = s₂.node;
          rule = s₃.node;
          listed = listed;
          is_report = kind;
          quoted =
              subst (λ i. Hop nodes edges "derived_from" "evidence_quote" i s₁.node)
                (ap (λ (y : State). y.node_id) (Reached-start t₀ w₀ e₀)) s₁.hop;
          supported =
              subst (λ i. Hop nodes edges "supports" "detection_spec" i s₂.node)
                (ap (λ (y : State). y.node_id) s₁.lands) s₂.hop;
          derived =
              subst (λ i. Hop nodes edges "derived_from" "generated_rule" i s₃.node)
                (ap (λ (y : State). y.node_id) s₂.lands) s₃.hop;
          ends =
              sym (ap (λ (y : State). y.node_id) s₃.lands)
              ∙ (eq_iff u.node_id rule_node_id).0 is_it;
        }

  -- The three hops of a path, as a walk of the search from its report.
  pub Walk-of_path :
      (rule_node_id : String) (p : UpstreamPath nodes edges rule_node_id)
      → Walk same_state
          (expand nodes edges)
          (record { node_id = p.report.id; hop = 0 })
          (record { node_id = p.rule.id; hop = 3 })
  unfolding expand
  Walk-of_path rule_node_id p =
      Walk.go
        (Walk.go
          (Walk.go Walk.stop (
            elem-states 1 _ p.quote (
              mem-of_Hop nodes edges "derived_from" "evidence_quote" p.report.id p.quote p.quoted)))
          (elem-states 2 _ p.spec
            (mem-of_Hop nodes edges "supports" "detection_spec" p.quote.id p.spec p.supported)))
        (elem-states 3 _ p.rule
          (mem-of_Hop nodes edges "derived_from" "generated_rule" p.spec.id p.rule p.derived))
