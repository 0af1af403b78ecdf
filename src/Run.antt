-- ===== src/Run.antt =====
-- services/state_machine.py, schemas/run.py and Orchestrator.run_golden_path of
-- services/orchestrator.py: the states of a run and the transitions between them.
pub mod Paths
pub mod Canonical
use aicti.Base.{Bool, true, false, List, [], ◌∷◌, Result, ok, err, ◌>>=◌, ◌>>◌, String, concat}

pub data RunMode : Type 0 where
  auto cautious : RunMode

pub data RunState : Type 0 where
  created ingested evidence_ready detection_spec_ready detection_spec_verified : RunState
  rule_candidates_ready validated awaiting_review approved rejected abstained failed : RunState

pub RunState-discrete : Discrete RunState
RunState-discrete = hlevel

pub record RunSummary : Type 0 where
  pub id : String
  pub report_id : String
  pub mode : RunMode
  pub state : RunState

-- `ValidationGateError`, with the two states that its message names.
pub data GateError : Type 0 where
  illegal_transition : RunState → RunState → GateError

-- The dictionary `StateMachine.allowed`; a state that is no key of it has no targets.
allowed : RunState → List RunState
allowed created = ingested ∷ failed ∷ []
allowed ingested = evidence_ready ∷ abstained ∷ failed ∷ []
allowed evidence_ready = detection_spec_ready ∷ abstained ∷ failed ∷ []
allowed detection_spec_ready = detection_spec_verified ∷ failed ∷ []
allowed detection_spec_verified = rule_candidates_ready ∷ abstained ∷ failed ∷ []
allowed rule_candidates_ready = validated ∷ abstained ∷ failed ∷ []
allowed validated = awaiting_review ∷ abstained ∷ failed ∷ []
allowed awaiting_review = approved ∷ rejected ∷ []
allowed _ = []

-- `target in targets`
is_target : RunState → List RunState → Bool
unfolding RunState-discrete
is_target t [] = false
is_target t (x ∷ xs) = elim (RunState-discrete t x) [ yes _ ↦ true | no _ ↦ is_target t xs ]

unfoldable pub transition : RunState → RunState → Result GateError RunState
unfolding allowed is_target
transition current target = elim (is_target target (allowed current)) [
  | true ↦ ok target
  | false ↦ err (illegal_transition current target)
]

-- What follows the early return of the cautious mode.
finish_golden_path : String → RunMode → RunState → Result GateError RunSummary
unfolding transition
finish_golden_path report_id cautious s =
    ok (record { id = concat "run_" report_id; report_id = report_id; mode = cautious; state = s })
finish_golden_path report_id auto s = do
  s₄ ← transition s detection_spec_verified
  s₅ ← transition s₄ rule_candidates_ready
  s₆ ← transition s₅ validated
  s₇ ← transition s₆ awaiting_review
  ok (record { id = concat "run_" report_id; report_id = report_id; mode = auto; state = s₇ })

unfoldable pub run_golden_path : String → RunMode → Result GateError RunSummary
unfolding finish_golden_path
run_golden_path report_id mode = do
  s₁ ← transition created ingested
  s₂ ← transition s₁ evidence_ready
  s₃ ← transition s₂ detection_spec_ready
  finish_golden_path report_id mode s₃
