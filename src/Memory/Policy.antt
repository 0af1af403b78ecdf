-- ===== src/Memory/Policy.antt =====
-- services/memory_policy.py: the access list and the namespaces that a stage needs; and the memory contract
-- of services/orchestrator.py.
pub mod Contract
use aicti.Base.{
  String, ◌==◌, concat, Bool, true, false, ◌&&◌, not, Option, none, some, List, [], ◌∷◌, keep, elem,
  split_once, Result, ok, err, if◌then◌else◌, is_empty,
}
use aicti.Value.{Value}
use aicti.Db.{Db, MemoryView}

-- A namespace and the operations on it that a role has.
abbrev pub Permissions : Type 0
Permissions = List (String × List String)

abbrev pub acl : List (String × Permissions)
acl =
    ("evidence_agent", ("evidence.working_set", "write" ∷ []) ∷ [])
    ∷ (
      "attack_mapping_agent",
      ("evidence.working_set", "read" ∷ []) ∷ ("attack_mapping.hypotheses", "write" ∷ []) ∷ [],
    )
    ∷ (
      "detection_spec_agent",
      ("evidence.working_set", "read" ∷ [])
          ∷ ("attack_mapping.hypotheses", "read" ∷ [])
          ∷ ("detection_spec.draft", "write" ∷ [])
          ∷ [],
    )
    ∷ (
      "rule_generation_agent",
      ("detection_spec.draft", "read" ∷ []) ∷ ("rule_generation.draft", "write" ∷ []) ∷ [],
    )
    ∷ (
      "static_validation",
      ("rule_generation.draft", "read" ∷ []) ∷ ("validation.findings", "write" ∷ []) ∷ [],
    )
    ∷ (
      "critic_agent",
      ("rule_generation.draft", "read" ∷ [])
          ∷ ("validation.findings", "read" ∷ [])
          ∷ ("refinement.plan", "write" ∷ [])
          ∷ [],
    )
    ∷ ("review_service", ("review.handoff", "read" ∷ "write" ∷ []) ∷ [])
    ∷ []

-- `dict.get`
abbrev pub find_key : {A : Type 0} → String → List (String × A) → Option A
find_key key [] = none
find_key key ((k, a) ∷ rest) = if k == key then some a else find_key key rest

unfoldable pub permits : Option Permissions → String → String → Bool
permits none namespace operation = false
permits (some permissions) namespace operation = elim (find_key namespace permissions) [
  | none ↦ false
  | some operations ↦ elem ◌==◌ operation operations
]

-- `can_access`; the stage and the state of the run are not read.
unfoldable pub can_access_by_acl : String → String → String → String → String → Bool
can_access_by_acl role namespace operation stage run_state =
    permits (find_key role acl) namespace operation

abbrev pub required_stage_contracts : List (String × List String)
required_stage_contracts =
    ("rule_generation", "detection_spec.draft" ∷ [])
    ∷ ("static_validation", "rule_generation.draft" ∷ [])
    ∷ []

-- `REQUIRED_STAGE_CONTRACTS.get(stage, ())`
unfoldable pub contract_of : String → List String
contract_of stage = elim (find_key stage required_stage_contracts) [
  | none ↦ []
  | some namespaces ↦ namespaces
]

unfoldable pub stage_contract_missing : String → List String → List String
stage_contract_missing stage available = keep (λ n. not (elem ◌==◌ n available)) (contract_of stage)

unfoldable pub second_part : Option (String × String) → String
second_part none = ""
second_part (some (front, back)) = back

-- `":"` is the character 58.
unfoldable pub namespace_from_scope : String → String
namespace_from_scope scope = second_part (split_once 58 scope)

-- What one row adds.
unfoldable pub add_namespace : String → Option Value → List String → List String
add_namespace namespace none namespaces = namespaces
add_namespace namespace (some value) namespaces =
    if namespace == "" then namespaces else namespace ∷ namespaces

-- The set, as a list.
unfoldable pub latest_payload_namespaces : List MemoryView → List String
latest_payload_namespaces [] = []
latest_payload_namespaces (row ∷ rows) =
    add_namespace (namespace_from_scope row.scope) row.value (latest_payload_namespaces rows)

-- The `PipelineTransitionError` that names the stage and what it lacks.
pub data ContractError : Type 0 where
  contract_missing : String → List String → ContractError

unfoldable pub none_missing : String → List String → Result ContractError (Unit {0})
none_missing stage [] = ok tt
none_missing stage (n ∷ ns) = err (contract_missing stage (n ∷ ns))

-- `like` is SQL's operator.
unfoldable pub available_namespaces : (String → String → Bool) → String → Db → List String
available_namespaces like run_id db = latest_payload_namespaces (
    keep (λ (v : MemoryView). like v.scope (concat run_id ":%") && v.key == "latest")
      db.memory_views)

unfoldable pub require_memory_contract :
    (String → String → Bool) → String → String → Db → Result ContractError (Unit {0})
require_memory_contract like run_id stage db =
    none_missing stage (stage_contract_missing stage (available_namespaces like run_id db))
