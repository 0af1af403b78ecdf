-- ===== src/Run/Paths.antt =====
-- Whole runs of `StateMachine.transition`: what a run that was approved went through.
use aicti.Base.{
  ℕ, suc, ◌+◌, ◌≤◌, ◌≡◌, ◌↔◌, Option, none, some, List, [], ◌∷◌, length, arith, Result, ok, err,
  Result-cases, inl, inr, ok-injective, ◌>>=◌,
}
use aicti.Run.{
  RunMode, auto, cautious, RunState, created, ingested, evidence_ready, detection_spec_ready,
  detection_spec_verified, rule_candidates_ready, validated, awaiting_review, approved, GateError,
  illegal_transition, transition,
}

-- A client that asks for a list of targets in turn, and stops at the first refusal.
unfoldable pub follow : RunState → List RunState → Result GateError RunState
follow s [] = ok s
follow s (t ∷ ts) = transition s t >>= λ u. follow u ts

-- The only way that is left from a state to `approved`.
abbrev pub route : RunState → Option (List RunState)
route created = some (
    ingested ∷ evidence_ready ∷ detection_spec_ready ∷ detection_spec_verified
    ∷ rule_candidates_ready ∷ validated ∷ awaiting_review ∷ approved ∷ [])
route ingested = some (
    evidence_ready ∷ detection_spec_ready ∷ detection_spec_verified ∷ rule_candidates_ready
    ∷ validated ∷ awaiting_review ∷ approved ∷ [])
route evidence_ready = some (
    detection_spec_ready ∷ detection_spec_verified ∷ rule_candidates_ready ∷ validated
    ∷ awaiting_review ∷ approved ∷ [])
route detection_spec_ready =
    some (
      detection_spec_verified ∷ rule_candidates_ready ∷ validated ∷ awaiting_review ∷ approved ∷ [])
route detection_spec_verified =
    some (rule_candidates_ready ∷ validated ∷ awaiting_review ∷ approved ∷ [])
route rule_candidates_ready = some (validated ∷ awaiting_review ∷ approved ∷ [])
route validated = some (awaiting_review ∷ approved ∷ [])
route awaiting_review = some (approved ∷ [])
route approved = some []
route _ = none

-- How many transitions a state is away from the end of the longest run.
abbrev pub rank : RunState → ℕ
rank created = 8
rank ingested = 7
rank evidence_ready = 6
rank detection_spec_ready = 5
rank detection_spec_verified = 4
rank rule_candidates_ready = 3
rank validated = 2
rank awaiting_review = 1
rank _ = 0

transition_target : (s t u : RunState) → transition s t ≡ ok u → u ≡ t
unfolding transition
transition_target s t u h = ground arith

transition-rank : (s t u : RunState) → transition s t ≡ ok u → suc (rank t) ≤ rank s
unfolding transition
transition-rank created t u h = ground arith
transition-rank _ t u h = ground arith

transition-route :
    (s t : RunState) {u : RunState} {r : List RunState}
    → transition s t ≡ ok u
    → route t ≡ some r
    → route s ≡ some (t ∷ r)
unfolding transition
transition-route created t h e = ground arith
transition-route _ t h e = ground arith

follow-cons :
    (s t u : RunState) (ts : List RunState)
    → follow s (t ∷ ts) ≡ ok u
    → (transition s t ≡ ok t) × (follow t ts ≡ ok u)
unfolding follow
follow-cons s t u ts h = elim (Result-cases (transition s t)) [
  | inl (v, e) ↦ ground (arith, transition_target s t v)
  | inr (x, e) ↦ ground arith
]

-- A run of accepted transitions from a state is at most as long as the difference of the ranks of
-- its two ends; so every run ends, after eight transitions at most.
pub length-follow-le-rank :
    (s u : RunState) (ts : List RunState) → follow s ts ≡ ok u → length ts + rank u ≤ rank s
unfolding follow
length-follow-le-rank s u [] h = rw (ok-injective h) (omega arith)
length-follow-le-rank s u (t ∷ ts) h =
    let (first, rest) = follow-cons s t u ts h in
    omega (arith, transition-rank s t t first, length-follow-le-rank t u ts rest)

follow-route : (s : RunState) (ts : List RunState) → follow s ts ≡ ok approved → route s ≡ some ts
unfolding follow
follow-route s [] h = rw (ok-injective h)
follow-route s (t ∷ ts) h =
    let (first, rest) = follow-cons s t approved ts h in
    transition-route s t first (follow-route t ts rest)

route-follow : (s : RunState) (ts : List RunState) → route s ≡ some ts → follow s ts ≡ ok approved
unfolding follow transition
route-follow created ts h = ground arith
route-follow _ ts h = ground arith

-- The transitions that a client asks for from any state end in `approved` exactly when they are
-- the one route that the table leaves: no stage is skipped, repeated or taken out of order.
pub follow-approved_iff :
    (s : RunState) (ts : List RunState) → (follow s ts ≡ ok approved) ↔ (route s ≡ some ts)
follow-approved_iff s ts = (follow-route s ts, route-follow s ts)

-- A run that is approved, rejected, abstained or failed accepts no transition.
transition_terminal : (s t : RunState) → rank s ≡ 0 → transition s t ≡ err (illegal_transition s t)
unfolding transition
transition_terminal created t h = ground arith
transition_terminal _ t h = ground arith

abbrev pub golden_end : RunMode → RunState
golden_end auto = awaiting_review
golden_end cautious = detection_spec_ready
