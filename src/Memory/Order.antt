-- ===== src/Memory/Order.antt =====
-- The order in which the replay reads the events: those of one scope come by their versions.
use aicti.Base.{
  String, ◌==◌, ◌≡◌, refl, sym, ap, ◌∙◌, eq_iff, eq_refl, Bool, true, false, ◌&&◌, List, [], ◌∷◌,
  keep, all, ltb, if◌then◌else◌, arith, Bool-cases, inl, inr, and_true,
}
use aicti.Db.{MemoryEvent}
use aicti.Memory.{precedes, insert_event, in_order}

abbrev pub of_scope : String → MemoryEvent → Bool
of_scope scope e = e.scope == scope

-- Each key is below those after it.
abbrev pub ascending : List MemoryEvent → Bool
ascending [] = true
ascending (e ∷ es) = all (λ (f : MemoryEvent). ltb e.key f.key) es && ascending es

keep-insert_other :
    (s : String) (e : MemoryEvent) (es : List MemoryEvent)
    → of_scope s e ≡ false
    → keep (of_scope s) (insert_event e es) ≡ keep (of_scope s) es
unfolding insert_event
keep-insert_other s e [] h = ground (arith, h)
keep-insert_other s e (f ∷ es) h = elim (Bool-cases (precedes e f)) [
  | inl before ↦ rw before (rw h refl)
  | inr after ↦ rw after (elim (Bool-cases (of_scope s f)) [
    | inl same ↦ rw same (ap (λ l. f ∷ l) (keep-insert_other s e es h))
    | inr other ↦ rw other (keep-insert_other s e es h)
  ])
]

precedes_same :
    (s : String) (e f : MemoryEvent)
    → of_scope s e ≡ true
    → of_scope s f ≡ true
    → ltb e.key f.key ≡ true
    → precedes e f ≡ true
unfolding precedes
precedes_same s e f h k l =
    let same : (e.scope == f.scope) ≡ true =
      ap (λ t. t == f.scope) ((eq_iff e.scope s).0 h ∙ sym ((eq_iff f.scope s).0 k))
      ∙ eq_refl f.scope in
    rw same (ground arith)

keep-insert_first :
    (s : String) (e : MemoryEvent) (es : List MemoryEvent)
    → of_scope s e ≡ true
    → all (λ (f : MemoryEvent). ltb e.key f.key) (keep (of_scope s) es) ≡ true
    → keep (of_scope s) (insert_event e es) ≡ e ∷ keep (of_scope s) es
unfolding insert_event
keep-insert_first s e [] h k = ground (arith, h)
keep-insert_first s e (f ∷ es) h k = elim (Bool-cases (of_scope s f)) [
  | inl same ↦
      let above = and_true (ltb e.key f.key) _ (rw (same, if◌then◌else◌) at k) in
      rw (precedes_same s e f h same above.0) (rw h refl)
  | inr other ↦
      let above = rw (other, if◌then◌else◌) at k in
      elim (Bool-cases (precedes e f)) [
        | inl before ↦ rw before (rw h refl)
        | inr after ↦ rw after (rw other (keep-insert_first s e es h above))
      ]
]

-- The events of a scope stand in the order of insertion, where their versions ascend in it.
pub keep-in_order :
    (s : String) (es : List MemoryEvent)
    → ascending (keep (of_scope s) es) ≡ true
    → keep (of_scope s) (in_order es) ≡ keep (of_scope s) es
unfolding in_order
keep-in_order s [] h = refl
keep-in_order s (e ∷ es) h = elim (Bool-cases (of_scope s e)) [
  | inl same ↦
      let (above, rest) =
        and_true _ (ascending (keep (of_scope s) es)) (rw (same, if◌then◌else◌) at h) in
      let ih = keep-in_order s es rest in
      keep-insert_first s e (in_order es) same (rw ih above) ∙ ap (λ l. e ∷ l) ih ∙ rw same refl
  | inr other ↦
      keep-insert_other s e (in_order es) other
      ∙ keep-in_order s es (rw (other, if◌then◌else◌) at h)
      ∙ rw other refl
]
