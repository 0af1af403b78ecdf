-- ===== src/Run/Canonical.antt =====
-- CANONICAL_TRANSITIONS and `can_transition` of services/state_machine.py, whose states are texts.
use aicti.Base.{
  Bool, true, false, String, ◌==◌, ◌≡◌, refl, Option, none, some, List, [], ◌∷◌, elem, arith,
  if◌then◌else◌,
}

abbrev Transitions : Type 0
Transitions = List (String × List String)

abbrev canonical_transitions : Transitions
canonical_transitions =
    ("INGESTED", "CHUNKED" ∷ [])
    ∷ ("CHUNKED", "EVIDENCE_EXTRACTED" ∷ [])
    ∷ ("EVIDENCE_EXTRACTED", "ATTACK_MAPPED" ∷ "ABSTAINED" ∷ [])
    ∷ ("ATTACK_MAPPED", "TELEMETRY_GROUNDED" ∷ [])
    ∷ ("TELEMETRY_GROUNDED", "SPEC_BUILT" ∷ "ABSTAINED" ∷ [])
    ∷ ("SPEC_BUILT", "QUERY_PORTFOLIO_READY" ∷ [])
    ∷ ("QUERY_PORTFOLIO_READY", "QUERY_SELECTED" ∷ [])
    ∷ ("QUERY_SELECTED", "RULE_DRAFTED" ∷ [])
    ∷ ("RULE_DRAFTED", "STATIC_VALIDATED" ∷ [])
    ∷ ("STATIC_VALIDATED", "DYNAMIC_VALIDATED" ∷ "FAILED_VALIDATION" ∷ [])
    ∷ ("DYNAMIC_VALIDATED", "RULE_VALIDATED" ∷ "FAILED_VALIDATION" ∷ [])
    ∷ ("RULE_VALIDATED", "AWAITING_REVIEW" ∷ [])
    ∷ ("AWAITING_REVIEW", "APPROVED" ∷ "REJECTED" ∷ [])
    ∷ ("APPROVED", [])
    ∷ ("EXPORTED", [])
    ∷ ("ABSTAINED", [])
    ∷ ("FAILED_VALIDATION", [])
    ∷ ("FAILED_GENERATION", [])
    ∷ ("REJECTED", [])
    ∷ []

-- `transition_map.get(state_from, tuple())`
targets : String → Transitions → List String
targets k [] = []
targets k ((j, v) ∷ m) = if j == k then v else targets k m

-- `transitions or CANONICAL_TRANSITIONS`: an empty mapping counts as none.
effective : Option Transitions → Transitions
effective none = canonical_transitions
effective (some []) = canonical_transitions
effective (some (e ∷ m)) = e ∷ m

can_transition : String → String → Option Transitions → Bool
unfolding targets effective
can_transition from to transitions = elem ◌==◌ to (targets from (effective transitions))

-- Whether some entry of the mapping lists the state.
abbrev is_listed : String → Transitions → Bool
is_listed to [] = false
is_listed to ((j, v) ∷ m) = if elem ◌==◌ to v then true else is_listed to m

targets-is_listed :
    (from to : String) (m : Transitions)
    → is_listed to m ≡ false
    → elem ◌==◌ to (targets from m) ≡ false
unfolding targets
targets-is_listed from to [] h = refl
targets-is_listed from to ((j, v) ∷ m) h = ground (arith, targets-is_listed from to m)

-- Under the canonical table, given or left out or given as an empty mapping, a state that no entry
-- lists can be entered from no state at all.
can_transition_unlisted :
    (from to : String)
    → is_listed to canonical_transitions ≡ false
    → (can_transition from to none ≡ false) × (can_transition from to (some []) ≡ false)
unfolding can_transition
can_transition_unlisted from to h =
    let e = targets-is_listed from to canonical_transitions h in (e, e)
